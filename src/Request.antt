-- ===== src/Request.antt =====
-- request.go: a transaction request, its builder, and its execution, with or without an idempotency
-- key. The ABIs serve only the error decoder.
pub mod Once
mod Tests
use Prim.Native.String.{String}
use text.Mathlib.Text.{◌==◌ as str_eq}
use walletarmy.Common.{
  ℕ, Bool, true, false, Option, none, some, List, [], ◌∷◌, ℤ, pos, ◌==◌, if◌then◌else◌,
}
use walletarmy.Common.Text.{Text}
use walletarmy.Outside.{
  Outside, Error, Except, ok, err, sentinel, from_address_zero, network_nil, duplicate_key, Network,
}
use walletarmy.Idempotency
use walletarmy.Idempotency.{InMemoryStore, Record, Status, confirmed, failed, pending, submitted}
use walletarmy.Defaults.{ManagerDefaults, zero_float}
use walletarmy.Manager.{Manager, Action, pure, ◌>>=◌, ◌>>◌, outside}
use walletarmy.Exec.{TxHooks}
use walletarmy.Exec.Context.{Given}
use walletarmy.Exec.Loop.{Final, Round, again, ends, crashes, hangs}
use walletarmy.Exec.Entry.{Choices, fails_with, no_hooks, execute_new}

-- `""` is no key.
pub record TxRequest (o : Outside) : Type 0 where
  pub given : Given o
  pub choices : Choices o
  pub idempotency_key : String

-- The calls of the builder.
pub data Setter (o : Outside) : Type 0 where
  set_num_retries set_sleep_duration set_tx_check_interval : ℤ → Setter o
  set_tx_type set_from set_to : ℕ → Setter o
  set_value : Option ℕ → Setter o
  set_gas_limit set_extra_gas_limit : ℕ → Setter o
  set_gas_price set_extra_gas_price set_tip_cap_gwei set_extra_tip_cap_gwei : o.Float → Setter o
  set_max_gas_price set_max_tip_cap : o.Float → Setter o
  set_payload : Text → Setter o
  set_network : Option Network → Setter o
  set_hooks : (TxHooks o → TxHooks o) → Setter o
  set_skip_simulation : Bool → Setter o
  set_idempotency_key : String → Setter o

-- A manager, and the store of its option, which the loop does not touch.
pub record Shared (o : Outside) : Type 0 where
  pub manager : Manager o
  pub store : InMemoryStore o.Tx o.Receipt Error

module _ (o : Outside) where
  -- `R`
  unfoldable pub r : ManagerDefaults o → TxRequest o
  r d = record {
    given = record {
      tx_type = d.tx_type;
      from = 0;
      to = 0;
      value = some 0;
      payload = [];
      network = d.network;
      skip_simulation = false;
    };
    choices = record {
      num_retries = d.num_retries;
      sleep_duration = d.sleep_duration;
      tx_check_interval = d.tx_check_interval;
      gas_limit = 0;
      extra_gas_limit = d.extra_gas_limit;
      gas_price = zero_float o;
      extra_gas_price = d.extra_gas_price;
      tip_cap = zero_float o;
      extra_tip_cap = d.extra_tip_cap;
      max_gas_price = d.max_gas_price;
      max_tip_cap = d.max_tip_cap;
      hooks = no_hooks o;
    };
    idempotency_key = "";
  }

  abbrev on_given : (Given o → Given o) → TxRequest o → TxRequest o
  on_given f q = record q { given = f q.given }

  abbrev on_choices : (Choices o → Choices o) → TxRequest o → TxRequest o
  on_choices f q = record q { choices = f q.choices }

  -- The receiver is changed in place and returned, so a chain of calls is a list of setters.
  unfoldable pub apply_setter : Setter o → TxRequest o → TxRequest o
  apply_setter (set_num_retries n) q = on_choices (λ c. record c { num_retries = n }) q
  apply_setter (set_sleep_duration t) q = on_choices (λ c. record c { sleep_duration = t }) q
  apply_setter (set_tx_check_interval t) q = on_choices (λ c. record c { tx_check_interval = t }) q
  apply_setter (set_tx_type n) q = on_given (λ g. record g { tx_type = n }) q
  apply_setter (set_from a) q = on_given (λ g. record g { from = a }) q
  apply_setter (set_to a) q = on_given (λ g. record g { to = a }) q
  apply_setter (set_value none) q = q
  apply_setter (set_value (some v)) q = on_given (λ g. record g { value = some v }) q
  apply_setter (set_gas_limit n) q = on_choices (λ c. record c { gas_limit = n }) q
  apply_setter (set_extra_gas_limit n) q = on_choices (λ c. record c { extra_gas_limit = n }) q
  apply_setter (set_gas_price x) q = on_choices (λ c. record c { gas_price = x }) q
  apply_setter (set_extra_gas_price x) q = on_choices (λ c. record c { extra_gas_price = x }) q
  apply_setter (set_tip_cap_gwei x) q = on_choices (λ c. record c { tip_cap = x }) q
  apply_setter (set_extra_tip_cap_gwei x) q = on_choices (λ c. record c { extra_tip_cap = x }) q
  apply_setter (set_max_gas_price x) q = on_choices (λ c. record c { max_gas_price = x }) q
  apply_setter (set_max_tip_cap x) q = on_choices (λ c. record c { max_tip_cap = x }) q
  apply_setter (set_payload d) q = on_given (λ g. record g { payload = d }) q
  apply_setter (set_network n) q = on_given (λ g. record g { network = n }) q
  apply_setter (set_hooks f) q = on_choices (λ c. record c { hooks = f c.hooks }) q
  apply_setter (set_skip_simulation b) q = on_given (λ g. record g { skip_simulation = b }) q
  apply_setter (set_idempotency_key k) q = record q { idempotency_key = k }

  unfoldable pub apply_setters : List (Setter o) → TxRequest o → TxRequest o
  apply_setters [] q = q
  apply_setters (s ∷ ss) q = apply_setters ss (apply_setter s q)

  unfoldable pub execute_internal : ℕ → TxRequest o → Action (Manager o) (Round o)
  execute_internal rounds q = execute_new o rounds q.given q.choices

  abbrev pub time : Action (Shared o) ℤ
  time x =
      let (t, w) = o.now x.manager.world in
      (t, record x { manager = record x.manager { world = w } })

  abbrev pub duplicate : Option o.Tx → Option o.Receipt → Round o
  duplicate tx receipt =
      ends (record { transaction = tx; receipt = receipt; error = some (sentinel duplicate_key) })

  -- What a record that is there is answered with.
  abbrev pub answer_of : Record o.Tx o.Receipt Error → Round o
  answer_of rec = elim rec.status [
    | confirmed ↦
        ends (record { transaction = rec.transaction; receipt = rec.receipt; error = none })
    | failed ↦
        ends (record { transaction = rec.transaction; receipt = rec.receipt; error = rec.error })
    | _ ↦ duplicate rec.transaction rec.receipt
  ]

  abbrev pub status_of : Option Error → Option o.Receipt → Status
  status_of (some e) receipt = failed
  status_of none (some receipt) = confirmed
  status_of none none = submitted

  abbrev hash_or : ℕ → Option o.Tx → ℕ
  hash_or h none = h
  hash_or h (some tx) = o.hash_of tx

  -- The record gets the results.
  abbrev pub settled : Final o → Record o.Tx o.Receipt Error → Record o.Tx o.Receipt Error
  settled f rec = record rec {
    transaction = f.transaction;
    receipt = f.receipt;
    error = f.error;
    tx_hash = hash_or rec.tx_hash f.transaction;
    status = status_of f.error f.receipt;
  }

  abbrev pub settle : ℕ → Final o → Action (Shared o) (Unit {0})
  settle ref f = do
    now ← time
    λ x. (
      tt,
      record x {
        store = (Idempotency.update ref now (Idempotency.modify ref (settled f) x.store)).1;
      },
    )

  -- A run that panics, or never ends, leaves the record as it was created.
  abbrev pub after_run : ℕ → Round o → Action (Shared o) (Round o)
  after_run ref (ends f) = do settle ref f; pure (ends f)
  after_run ref again = pure again
  after_run ref crashes = pure crashes
  after_run ref hangs = pure hangs

  abbrev pub run_new : ℕ → TxRequest o → ℕ → Action (Shared o) (Round o)
  run_new rounds q ref = do
    out ←
        λ x. (let (out, m) = execute_internal rounds q x.manager in (out, record x { manager = m }))
    after_run ref out

  abbrev pub after_create : ℕ → TxRequest o → ℕ × Bool → Action (Shared o) (Round o)
  after_create rounds q (ref, true) x =
      (duplicate (x.store.heap ref).transaction (x.store.heap ref).receipt, x)
  after_create rounds q (ref, false) x = run_new rounds q ref x

  abbrev pub create_record : String → Action (Shared o) (ℕ × Bool)
  create_record key = do
    now ← time
    λ x. (let (out, s) = Idempotency.create key now x.store in (out, record x { store = s }))

  abbrev pub after_get : ℕ → TxRequest o → Option ℕ → Action (Shared o) (Round o)
  after_get rounds q (some ref) x = (answer_of (x.store.heap ref), x)
  after_get rounds q none x =
      (do created ← create_record q.idempotency_key; after_create rounds q created) x

  unfoldable pub execute_with_idempotency : ℕ → TxRequest o → Action (Shared o) (Round o)
  execute_with_idempotency rounds q = do
    now ← time
    found ← λ x. (Idempotency.get q.idempotency_key now x.store, x)
    after_get rounds q found

  abbrev with_store :
      ℕ → TxRequest o → Option (InMemoryStore o.Tx o.Receipt Error) → Action (Manager o) (Round o)
  with_store rounds q none m = execute_internal rounds q m
  with_store rounds q (some s) m =
      let (out, x) = execute_with_idempotency rounds q (record { manager = m; store = s }) in
      (out, record x.manager { idempotency_store = some x.store })

  abbrev by_key : ℕ → TxRequest o → Bool → Action (Manager o) (Round o)
  by_key rounds q true m = execute_internal rounds q m
  by_key rounds q false m = with_store rounds q m.idempotency_store m

  abbrev on_network : ℕ → TxRequest o → Option Network → Action (Manager o) (Round o)
  on_network rounds q none = pure (fails_with o (sentinel network_nil))
  on_network rounds q (some net) = by_key rounds q (str_eq q.idempotency_key "")

  -- `ExecuteContext`
  unfoldable pub execute_context : ℕ → TxRequest o → Action (Manager o) (Round o)
  execute_context rounds q =
      if q.given.from == 0
      then pure (fails_with o (sentinel from_address_zero))
      else on_network rounds q q.given.network
