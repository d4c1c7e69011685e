-- ===== src/Recovery/Monitors.antt =====
-- recovery.go: the loop of `processPendingTransactions` beside the goroutines that it starts, as steps. The
-- channel `sem` has as many places as goroutines may run.
pub mod Advances
mod Tests
use walletarmy.Common.{
  ℕ, zero, suc, ◌+◌, ◌*◌, ◌≤◌, ◌<◌, ◌≡◌, ◌≢◌, ◌⊎◌, inl, inr, refl, ap, ◌∙◌, Bool, true, false,
  Bool-cases, Option, none, some, Option-cases, List, [], ◌∷◌, ◌++◌, length, ltb, ◌==◌, ℤ, pos,
  ◌≤ℤ◌, if◌then◌else◌, arith,
}
use walletarmy.Outside.{Outside, Error}
use walletarmy.Manager.{Manager}
use walletarmy.Recovery.{RecoveryOptions, RecoveryResult}
use walletarmy.Recovery.Pending.{Pending, Progress, process_tx}
use walletarmy.Recovery.Pending.Counts.{TxsCounted, process_tx-counts}

-- The transactions that the loop has not come to, the one whose goroutine waits for a place, what was
-- counted, and the goroutines that run.
pub record Pass (o : Outside) : Type 0 where
  pub ahead : List (Pending o)
  pub waiting : Option (Pending o)
  pub progress : Progress o
  pub running : List (Pending o)
  pub manager : Manager o

module _ (o : Outside) where
  -- The loop is at the send to `sem` if `process_tx` has added a resumption.
  abbrev pub asked : Pending o → Progress o → Progress o → Option (Pending o)
  asked p g g' = if length g'.resumed == length g.resumed then none else some p

-- A goroutine may do anything to the manager and the stores while it runs. It ends, and gives its place back,
-- only if its resumption comes to an end.
pub data Step (o : Outside) (opts : RecoveryOptions o) (s s' : Pass o) : Type 0 where
  check :
      (p : Pending o) (ps : List (Pending o)) (w : o.World) (g : Progress o) (m : Manager o)
      → s.ahead ≡ p ∷ ps
      → s.waiting ≡ none
      → o.context_error s.manager.world ≡ (none, w)
      → process_tx o opts p s.progress (record s.manager { world = w }) ≡ (some g, m)
      → s' ≡ record {
        ahead = ps;
        waiting = asked o p s.progress g;
        progress = g;
        running = s.running;
        manager = m;
      }
      → Step o opts s s'
  enter :
      (p : Pending o)
      → s.waiting ≡ some p
      → pos (suc (length s.running)) ≤ℤ opts.max_concurrent_monitors
      → s' ≡ record s { waiting = none; running = p ∷ s.running }
      → Step o opts s s'
  work : (m : Manager o) → s.running ≢ [] → s' ≡ record s { manager = m } → Step o opts s s'
  leave :
      (before after : List (Pending o)) (p : Pending o)
      → s.running ≡ before ++ p ∷ after
      → o.resumption_ends p.hash ≡ true
      → s' ≡ record s { running = before ++ after }
      → Step o opts s s'

pub data Steps (o : Outside) (opts : RecoveryOptions o) (s : Pass o) : Pass o → Type 0 where
  here : Steps o opts s s
  next : {t u : Pass o} → Steps o opts s t → Step o opts t u → Steps o opts s u

module _ (o : Outside) where
  abbrev pub counted : RecoveryResult → ℕ
  counted r = r.recovered_txs + r.mined_txs + r.dropped_txs + length r.errors

  abbrev pub pass_of : List (Pending o) → Progress o → Manager o → Pass o
  pass_of ps g m = record { ahead = ps; waiting = none; progress = g; running = []; manager = m }

  -- How many transactions there are in all, and that no more goroutines run than may.
  pub record Keeps (opts : RecoveryOptions o) (n : ℕ) (s : Pass o) : Type 0 where
    pub each_once : counted s.progress.result + length s.ahead ≡ n
    pub within : pos (length s.running) ≤ℤ opts.max_concurrent_monitors

  length-remove :
      (before after : List (Pending o)) (p : Pending o)
      → length (before ++ p ∷ after) ≡ suc (length (before ++ after))
  length-remove [] after p = refl
  length-remove (b ∷ before) after p = ap (λ n. suc n) (length-remove before after p)

  Step-Keeps :
      (opts : RecoveryOptions o) (n : ℕ) {s s' : Pass o}
      → Step o opts s s'
      → Keeps opts n s
      → Keeps opts n s'
  Step-Keeps opts n {s} (check p ps w g m ha hw hc hp e) k =
      let one =
        process_tx-counts o opts p s.progress g (record s.manager { world = w })
          (ap (λ r. r.0) hp) in
      let split : length s.ahead ≡ suc (length ps) = ap (λ l. length l) ha in
      ground (arith, one.0, split)
  Step-Keeps opts n (enter p hw place e) k = ground arith
  Step-Keeps opts n (work m run e) k = ground arith
  Step-Keeps opts n (leave before after p hr he e) k = ground (arith, length-remove before after p)

  Steps-Keeps :
      (opts : RecoveryOptions o) (n : ℕ) {s s' : Pass o}
      → Keeps opts n s
      → Steps o opts s s'
      → Keeps opts n s'
  Steps-Keeps opts n k here = k
  Steps-Keeps opts n k (next steps step) = Step-Keeps opts n step (Steps-Keeps opts n k steps)

  -- However the loop and its goroutines interleave, and whatever these do to the manager, each transaction
  -- that the loop has come to is counted once, and no more goroutines run than may; from a pass that
  -- starts with no goroutine.
  pub Steps-counts :
      (opts : RecoveryOptions o) (ps : List (Pending o)) (g : Progress o) (m : Manager o)
      {s : Pass o}
      → pos 0 ≤ℤ opts.max_concurrent_monitors
      → Steps o opts (pass_of ps g m) s
      → (counted s.progress.result + length s.ahead ≡ counted g.result + length ps)
        × (pos (length s.running) ≤ℤ opts.max_concurrent_monitors)
  Steps-counts opts ps g m places steps =
      let kept =
        Steps-Keeps opts (counted g.result + length ps)
          (record { each_once = refl; within = places }) steps in
      (kept.each_once, kept.within)
