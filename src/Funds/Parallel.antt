-- ===== src/Funds/Parallel.antt =====
-- `ParallelExecuteTransfers` of examples/fund_distribution/main.go: one goroutine for each transfer, which end
-- in any order. The calls of one goroutine are one step here.
use walletarmy.Common.{
  ℕ, suc, ◌+◌, ◌≤◌, ◌≡◌, ap, Option, none, some, List, [], ◌∷◌, ◌++◌, length, ℤ, arith,
}
use walletarmy.Outside.{Outside, Error, Network}
use walletarmy.Manager.{Manager, Action}
use walletarmy.Exec.Loop.{Round, ends}
use walletarmy.Funds.{Transfer}
use walletarmy.Funds.Sending.{ensure_transfer}

length_append {ℓ} : {A : Type ℓ} (xs ys : List A) → length (xs ++ ys) ≡ length xs + length ys
length_append [] ys = omega arith
length_append (x ∷ xs) ys = omega (arith, length_append xs ys)

-- The goroutines that are running, what is in `errChan`, and the manager that they share.
pub record Batch (o : Outside) : Type 0 where
  pub running : List Transfer
  pub err_chan : List (Transfer × Error)
  pub manager : Manager o

-- `address` and `balance` read the slices at the index of a wallet.
module _ (o : Outside) (gwei_to_wei : o.Float → ℕ) (negative_value : Action (Manager o) (Round o))
    (rounds : ℕ) (address : ℕ → ℕ) (balance : ℕ → ℤ) (net : Network) where
  abbrev pub transfer_run : Transfer → Action (Manager o) (Round o)
  transfer_run t =
      ensure_transfer o gwei_to_wei negative_value rounds (address t.from) (address t.to)
        (balance t.from) t.amount net

  -- What the goroutine leaves in the channel, when its call returns.
  abbrev pub sent_error :
      Transfer → Option Error → List (Transfer × Error) → List (Transfer × Error)
  sent_error t none errors = errors
  sent_error t (some e) errors = errors ++ (t, e) ∷ []

  abbrev pub Returned : Option Error → Round o → Type 0
  Returned e (ends f) = f.error ≡ e
  Returned e _ = ⊥

  -- A goroutine among those that are running comes to its end.
  pub data Step (s s' : Batch o) : Type 0 where
    finish :
        (before after : List Transfer) (t : Transfer) (e : Option Error)
        → s.running ≡ before ++ t ∷ after
        → Returned e (transfer_run t s.manager).0
        → s' ≡ record {
          running = before ++ after;
          err_chan = sent_error t e s.err_chan;
          manager = (transfer_run t s.manager).1;
        }
        → Step s s'

  pub data Steps (s : Batch o) : Batch o → Type 0 where
    here : Steps s s
    next : {t u : Batch o} → Steps s t → Step t u → Steps s u

  abbrev pub start : List Transfer → Manager o → Batch o
  start transfers m = record { running = transfers; err_chan = []; manager = m }

  -- The result, once no goroutine is running: no error if none was sent.
  abbrev pub verdict : List (Transfer × Error) → Option (List (Transfer × Error))
  verdict [] = none
  verdict (e ∷ errors) = some (e ∷ errors)

  sent_error-length :
      (t : Transfer) (e : Option Error) (errors : List (Transfer × Error))
      → length (sent_error t e errors) ≤ suc (length errors)
  sent_error-length t none errors = omega arith
  sent_error-length t (some e) errors = omega (arith, length_append errors ((t, e) ∷ []))

  -- There is room in the channel for every goroutine that is running, so that no send waits.
  room :
      (transfers : List Transfer) (m : Manager o) {s : Batch o}
      → Steps (start transfers m) s
      → length s.running + length s.err_chan ≤ length transfers
  room transfers m here = omega arith
  room transfers m (next {t} {u} steps (finish before after x e is_at ended same)) = rw same (
      omega (
        arith,
        room transfers m steps,
        sent_error-length x e t.err_chan,
        length_append before after,
        length_append before (x ∷ after),
        ap (λ xs. length xs) is_at,
      ))
