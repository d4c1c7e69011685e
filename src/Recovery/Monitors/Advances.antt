-- ===== src/Recovery/Monitors/Advances.antt =====
-- The recovery of pending transactions is not stuck while a place is left: recovery.go.
use walletarmy.Common.{
  ℕ, suc, ◌+◌, ◌*◌, ◌≤◌, ◌<◌, ◌≡◌, ◌⊎◌, inl, inr, refl, subst, ap, Bool, true, false, Bool-cases,
  Option, none, some, Option-cases, List, [], ◌∷◌, ◌++◌, length, ◌==◌, pos, ◌≤ℤ◌, if◌then◌else◌,
  arith,
}
use walletarmy.Outside.{Outside, Error}
use walletarmy.Manager.{Manager}
use walletarmy.Recovery.{RecoveryOptions}
use walletarmy.Recovery.Nonces.Counts.{length-snoc}
use walletarmy.Recovery.Pending.{Pending, Progress, endless, process_tx}
use walletarmy.Recovery.Pending.Places.{Next, endless-snoc, has_place_room, process_tx-Next}
use walletarmy.Recovery.Monitors.{
  Pass, asked, Step, check, enter, work, leave, Steps, here, next, pass_of, length-remove,
}

List-cases : {A : Type 0} (xs : List A) → (xs ≡ []) ⊎ ((x : A) × (rest : List A) × (xs ≡ x ∷ rest))
List-cases [] = inl refl
List-cases (x ∷ rest) = inr (x, rest, refl)

module _ (o : Outside) where
  abbrev waits : Option (Pending o) → ℕ
  waits none = 0
  waits (some p) = 2

  abbrev waiting_endless : Option (Pending o) → ℕ
  waiting_endless none = 0
  waiting_endless (some p) = endless o (p ∷ [])

  -- What is left to do: a transaction is checked, enters and leaves.
  abbrev pub left_to_do : Pass o → ℕ
  left_to_do s = 3 * length s.ahead + waits s.waiting + length s.running

  -- The loop is over, and only goroutines are left that never end.
  abbrev pub AllDone : Pass o → Type 0
  AllDone s = (s.ahead ≡ []) × (s.waiting ≡ none) × (endless o s.running ≡ length s.running)

  abbrev pub ContextEnded : Pass o → Type 0
  ContextEnded s = (e : Error) × ((o.context_error s.manager.world).0 ≡ some e)

  abbrev pub Advances : RecoveryOptions o → Pass o → Type 0
  Advances opts s = (s' : Pass o) × Step o opts s s' × (left_to_do s' < left_to_do s)

  endless-append : (xs ys : List (Pending o)) → endless o (xs ++ ys) ≡ endless o xs + endless o ys
  endless-append [] ys = omega arith
  endless-append (x ∷ xs) ys = ground (arith, endless-append xs ys)

  endless-cons :
      (p : Pending o) (ps : List (Pending o))
      → endless o (p ∷ ps) ≡ endless o (p ∷ []) + endless o ps
  endless-cons p ps = ground arith

  abbrev OneEnds : List (Pending o) → Type 0
  OneEnds xs =
      (before after : List (Pending o)) × (p : Pending o) × (xs ≡ before ++ p ∷ after)
      × (o.resumption_ends p.hash ≡ true)

  one_ends : (xs : List (Pending o)) → (endless o xs ≡ length xs) ⊎ OneEnds xs
  one_ends [] = inl refl
  one_ends (x ∷ xs) = elim (Bool-cases (o.resumption_ends x.hash)) [
    | inl ends_ ↦ inr ([], xs, x, refl, ends_)
    | inr never ↦ elim (one_ends xs) [
      | inl all ↦ inl (ground (arith, all))
      | inr (before, after, p, same, ends_) ↦
          inr (x ∷ before, after, p, ap (λ l. x ∷ l) same, ends_)
    ]
  ]

  -- The resumptions that never end, among those that were started and those that may yet be.
  record Bounded (n : ℕ) (s : Pass o) : Type 0 where
    total : endless o s.progress.resumed + endless o s.ahead ≤ n
    started : endless o s.running + waiting_endless s.waiting ≤ endless o s.progress.resumed

  module _ (opts : RecoveryOptions o) where
    asked-none :
        (p : Pending o) (g g' : Progress o) → g'.resumed ≡ g.resumed → asked o p g g' ≡ none
    asked-none p g g' same = ground (arith, ap (λ l. length l) same)

    asked-some :
        (p : Pending o) (g g' : Progress o)
        → g'.resumed ≡ g.resumed ++ p ∷ []
        → asked o p g g' ≡ some p
    asked-some p g g' more = ground (arith, ap (λ l. length l) more, length-snoc g.resumed p)

    check-Bounded :
        (n : ℕ) (s : Pass o) (p : Pending o) (ps : List (Pending o)) (g : Progress o)
        (m : Manager o)
        → s.ahead ≡ p ∷ ps
        → s.waiting ≡ none
        → Next o opts p s.progress (some g)
        → Bounded n s
        → Bounded n (record {
          ahead = ps;
          waiting = asked o p s.progress g;
          progress = g;
          running = s.running;
          manager = m;
        })
    check-Bounded n s p ps g m ha hw (inl same) b = record {
      total = omega (arith, b.total, ap (endless o) same, ap (endless o) ha, endless-cons p ps);
      started = omega (
        arith,
        b.started,
        ap waiting_endless (asked-none p s.progress g same),
        ap (endless o) same,
        ap waiting_endless hw,
      );
    }
    check-Bounded n s p ps g m ha hw (inr more) b = record {
      total = omega (
        arith,
        b.total,
        ap (endless o) more,
        endless-snoc o s.progress.resumed p,
        ap (endless o) ha,
        endless-cons p ps,
      );
      started = omega (
        arith,
        b.started,
        ap waiting_endless (asked-some p s.progress g more),
        ap (endless o) more,
        endless-snoc o s.progress.resumed p,
        ap waiting_endless hw,
      );
    }

    Step-Bounded : (n : ℕ) {s s' : Pass o} → Step o opts s s' → Bounded n s → Bounded n s'
    Step-Bounded n {s} (check p ps w g m ha hw hc hp e) b = rw e (
        check-Bounded n s p ps g m ha hw
          (subst (Next o opts p s.progress) (ap (λ r. r.0) hp)
            (process_tx-Next o opts p s.progress (record s.manager { world = w })))
          b)
    Step-Bounded n {s} (enter p hw place e) b = rw e (record {
      total = b.total;
      started = omega (arith, b.started, ap waiting_endless hw, endless-cons p s.running);
    })
    Step-Bounded n (work m run e) b = rw e (record { total = b.total; started = b.started })
    Step-Bounded n {s} (leave before after p hr he e) b = rw e (record {
      total = b.total;
      started = omega (
        arith,
        b.started,
        ap (endless o) hr,
        endless-append before (p ∷ after),
        endless-append before after,
        endless-cons p after,
      );
    })

    Steps-Bounded : (n : ℕ) {s s' : Pass o} → Bounded n s → Steps o opts s s' → Bounded n s'
    Steps-Bounded n b here = b
    Steps-Bounded n b (next steps step) = Step-Bounded n step (Steps-Bounded n b steps)

    waits_if : (p : Pending o) (b : Bool) → waits (if b then none else some p) ≤ 2
    waits_if p true = omega arith
    waits_if p false = omega arith

    leave-Advances : (s : Pass o) → OneEnds s.running → Advances opts s
    leave-Advances s (before, after, p, hr, he) = (
      record s { running = before ++ after },
      leave before after p hr he refl,
      omega (arith, ap (λ l. length l) hr, length-remove o before after p),
    )

    module _ (n : ℕ) (room : pos (suc n) ≤ℤ opts.max_concurrent_monitors) where
      check-Advances :
          (s : Pass o) (p : Pending o) (ps : List (Pending o)) (w : o.World)
          (out : Option (Progress o) × Manager o)
          → Bounded n s
          → s.ahead ≡ p ∷ ps
          → s.waiting ≡ none
          → o.context_error s.manager.world ≡ (none, w)
          → process_tx o opts p s.progress (record s.manager { world = w }) ≡ out
          → Next o opts p s.progress out.0
          → Advances opts s
      check-Advances s p ps w (none, m) b ha hw hc hp full = absurd (
          cc (
            full,
            has_place_room o opts s.progress.resumed opts.max_concurrent_monitors
                (omega (arith, room, b.total)),
          ))
      check-Advances s p ps w (some g, m) b ha hw hc hp more = (
        record {
          ahead = ps;
          waiting = asked o p s.progress g;
          progress = g;
          running = s.running;
          manager = m;
        },
        check p ps w g m ha hw hc hp refl,
        omega (
          arith,
          ap (λ l. length l) ha,
          waits_if p (length g.resumed == length s.progress.resumed),
        ),
      )

      enter-Advances :
          (s : Pass o) (p : Pending o) → Bounded n s → s.waiting ≡ some p → Advances opts s
      enter-Advances s p b hw = elim (one_ends s.running) [
        | inl all ↦ (
          record s { waiting = none; running = p ∷ s.running },
          enter p hw (omega (arith, room, all, b.total, b.started)) refl,
          omega (arith, ap waits hw),
        )
        | inr one ↦ leave-Advances s one
      ]

      ahead-Advances :
          (s : Pass o) (p : Pending o) (ps : List (Pending o)) (context : Option Error × o.World)
          → Bounded n s
          → s.ahead ≡ p ∷ ps
          → s.waiting ≡ none
          → o.context_error s.manager.world ≡ context
          → ContextEnded s ⊎ Advances opts s
      ahead-Advances s p ps (some e, w) b ha hw hc = inl (e, ap (λ c. c.0) hc)
      ahead-Advances s p ps (none, w) b ha hw hc =
          let m = record s.manager { world = w } in
          inr (
            check-Advances s p ps w (process_tx o opts p s.progress m) b ha hw hc refl
              (process_tx-Next o opts p s.progress m))

      Bounded-Advances : (s : Pass o) → Bounded n s → AllDone s ⊎ ContextEnded s ⊎ Advances opts s
      Bounded-Advances s b = elim (Option-cases s.waiting) [
        | inr (p, hw) ↦ inr (inr (enter-Advances s p b hw))
        | inl hw ↦ elim (List-cases s.ahead) [
          | inr (p, ps, ha) ↦
              inr (ahead-Advances s p ps (o.context_error s.manager.world) b ha hw refl)
          | inl ha ↦ elim (one_ends s.running) [
            | inl all ↦ inl (ha, hw, all)
            | inr one ↦ inr (inr (leave-Advances s one))
          ]
        ]
      ]

    -- However a recovery and its goroutines have come along, they are not stuck: unless the loop is over and
    -- only goroutines are left that never end, or the context has ended, there is a step that leaves less to
    -- do; where fewer of the transactions than there are places have a resumption that never ends. All other
    -- calls are taken to return, and no resumption to panic.
    pub advances :
        (ps : List (Pending o)) (g : Progress o) (m : Manager o) {s : Pass o}
        → pos (suc (endless o g.resumed + endless o ps)) ≤ℤ opts.max_concurrent_monitors
        → Steps o opts (pass_of o ps g m) s
        → AllDone s ⊎ ContextEnded s ⊎ Advances opts s
    advances ps g m {s} room steps = Bounded-Advances (endless o g.resumed + endless o ps) room s (
        Steps-Bounded (endless o g.resumed + endless o ps)
          (record { total = omega arith; started = omega arith }) steps)
