-- ===== src/Funds/Keys.antt =====
-- examples/fund_distribution/privatekey_configs.go: the keys of a file, filled up to the number of wallets.
use walletarmy.Common.{
  ℕ, zero, suc, ◌+◌, ◌-◌, ◌≤◌, ◌≡◌, refl, ap, Bool-cases, inl, inr, Option, none, some, List, [],
  ◌∷◌, ◌++◌, length, ltb, if◌then◌else◌, arith,
}
use walletarmy.Outside.{Error, Except, ok, err}

abbrev pub wallet_count : ℕ
wallet_count = 30

-- `generate` is `GenerateEthereumKeyPair`, which asks the outside for randomness, and `save` writes the file.
module _ {K W : Type 0} (generate : W → Except K × W) (save : List K → W → Option Error × W) where
  abbrev pub first_keys : ℕ → List K → List K
  first_keys zero ks = []
  first_keys (suc n) [] = []
  first_keys (suc n) (k ∷ ks) = k ∷ first_keys n ks

  -- `rest` is the rest of the loop.
  abbrev pub with_key :
      (List K → W → Except (List K) × W) → List K → Except K → W → Except (List K) × W
  with_key rest ks (err e) w = (err e, w)
  with_key rest ks (ok k) w = rest (ks ++ k ∷ []) w

  -- The loop with the rounds that are left.
  unfoldable pub add_keys : ℕ → List K → W → Except (List K) × W
  add_keys zero ks w = (ok ks, w)
  add_keys (suc n) ks w = let (k, w') = generate w in with_key (add_keys n) ks k w'

  abbrev pub after_save : List K → Option Error × W → Except (List K) × W
  after_save ks (some e, w) = (err e, w)
  after_save ks (none, w) = (ok ks, w)

  abbrev pub save_keys : Except (List K) × W → Except (List K) × W
  save_keys (err e, w) = (err e, w)
  save_keys (ok ks, w) = after_save ks (save ks w)

  -- `stored` is what the file was decoded to, empty if there is none. An error of the decoder is printed.
  unfoldable pub load_private_key_configs : List K → W → Except (List K) × W
  load_private_key_configs stored w =
      if ltb (length stored) wallet_count
      then save_keys (add_keys (wallet_count - length stored) stored w)
      else (ok (first_keys wallet_count stored), w)

  length-first_keys : (n : ℕ) (ks : List K) → n ≤ length ks → length (first_keys n ks) ≡ n
  length-first_keys zero ks h = refl
  length-first_keys (suc n) [] h = absurd (omega arith)
  length-first_keys (suc n) (k ∷ ks) h = ap (λ i. suc i) (length-first_keys n ks (omega arith))

  length-snoc : (ks : List K) (k : K) → length (ks ++ k ∷ []) ≡ length ks + 1
  length-snoc [] k = refl
  length-snoc (x ∷ ks) k = omega (arith, length-snoc ks k)

  with_key-length :
      (rest : List K → W → Except (List K) × W) (n : ℕ) (ks out : List K) (k : Except K) (w w' : W)
      → ((ks' : List K) (v : W) → rest ks' v ≡ (ok out, w') → length out ≡ length ks' + n)
      → with_key rest ks k w ≡ (ok out, w')
      → length out ≡ length ks + suc n
  with_key-length rest n ks out (err e) w w' ih h = cc
  with_key-length rest n ks out (ok k) w w' ih h =
      omega (arith, ih (ks ++ k ∷ []) w h, length-snoc ks k)

  length-add_keys :
      (n : ℕ) (ks out : List K) (w w' : W)
      → add_keys n ks w ≡ (ok out, w')
      → length out ≡ length ks + n
  unfolding add_keys
  length-add_keys zero ks out w w' h = ground arith
  length-add_keys (suc n) ks out w w' h =
      with_key-length (add_keys n) n ks out (generate w).0 (generate w).1 w'
        (λ ks' v e. length-add_keys n ks' out v w' e) h

  save_keys-length :
      (n : ℕ) (added : Except (List K) × W) (out : List K) (w' : W)
      → ((ks : List K) (v : W) → added ≡ (ok ks, v) → length ks ≡ n)
      → save_keys added ≡ (ok out, w')
      → length out ≡ n
  save_keys-length n (err e, w) out w' ih h = cc
  save_keys-length n (ok ks, w) out w' ih h = after-length (save ks w) h
    where
      after-length :
          (saved : Option Error × W) → after_save ks saved ≡ (ok out, w') → length out ≡ n
      after-length (some e, v) h = cc
      after-length (none, v) h = ground (arith, ih ks w refl)

  -- Where the keys are loaded, there are as many as wallets, however many the file holds.
  length-load_private_key_configs :
      (stored out : List K) (w w' : W)
      → load_private_key_configs stored w ≡ (ok out, w')
      → length out ≡ wallet_count
  unfolding load_private_key_configs
  length-load_private_key_configs stored out w w' h =
      elim (Bool-cases (ltb (length stored) wallet_count)) [
        | inl few ↦
            save_keys-length wallet_count (add_keys (wallet_count - length stored) stored w) out w'
              (λ ks v e.
                ground (arith, length-add_keys (wallet_count - length stored) stored ks w v e))
              (rw few at h)
        | inr many ↦
            let kept : length (first_keys wallet_count stored) ≡ wallet_count =
              length-first_keys wallet_count stored (ground arith) in
            let same : ◌≡◌ {A = Except (List K) × W} (ok (first_keys wallet_count stored), w)
                (ok out, w') =
              (rw many at h) in
            ground (arith, kept)
      ]
