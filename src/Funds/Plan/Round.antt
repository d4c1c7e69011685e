-- ===== src/Funds/Plan/Round.antt =====
-- What one round of the second loop of `findTransfers` does to the heap.
use walletarmy.Common.{ℕ, ◌-◌, ◌≤◌, ◌<◌, ◌≡◌, ◌≢◌, sym, ◌∙◌, [], ◌∷◌, All, pos, negsuc, arith}
use walletarmy.Funds.{Heap, big_neg, chosen, spend, transfer_of, after_transfer}
use walletarmy.Funds.Plan.{Amounts, give, Excess, Deficit}

spend-other : (e d a k : ℕ) (h : Heap) → k ≢ e → k ≢ d → spend e d a h k ≡ h k
unfolding spend
spend-other e d a k h ne nd = ground arith

-- The amount is the surplus itself: nothing is left to add to the need.
spend-same : (e d : ℕ) (h : Heap) → e ≢ d → (spend e d e h e ≡ pos 0) × (spend e d e h d ≡ h d)
unfolding spend
spend-same e d h ne = ground arith

spend-fresh :
    (e d n s m : ℕ) (h : Heap)
    → e ≢ d
    → e ≢ n
    → d ≢ n
    → h e ≡ pos s
    → h d ≡ negsuc (m - 1)
    → h n ≡ pos m
    → 0 < m
    → m ≤ s
    → (spend e d n h e ≡ pos (s - m)) × (spend e d n h d ≡ pos 0)
unfolding spend
spend-fresh e d n s m h ed en dn he hd hn hm le = ground arith

neg-need : (n d m : ℕ) (h : Heap) → h d ≡ negsuc (m - 1) → 0 < m → big_neg n d h n ≡ pos m
neg-need n d m h hd hm = ground arith

neg-other : (n d k : ℕ) (h : Heap) → k ≢ n → big_neg n d h k ≡ h k
neg-other n d k h ne = ground arith

chosen-less :
    (n e d s m : ℕ) (h : Heap)
    → e ≢ n
    → h e ≡ pos s
    → h d ≡ negsuc (m - 1)
    → 0 < m
    → s < m
    → chosen n e d h ≡ e
unfolding chosen
chosen-less n e d s m h en he hd hm lt =
    ground (arith, neg-need n d m h hd hm, neg-other n d e h en)

chosen-more :
    (n e d s m : ℕ) (h : Heap)
    → e ≢ n
    → h e ≡ pos s
    → h d ≡ negsuc (m - 1)
    → 0 < m
    → m ≤ s
    → chosen n e d h ≡ n
unfolding chosen
chosen-more n e d s m h en he hd hm le =
    ground (arith, neg-need n d m h hd hm, neg-other n d e h en)

pub apart : (a b s m : ℕ) (h : Heap) → h a ≡ pos s → h b ≡ negsuc m → a ≢ b
apart a b s m h ha hb same = cc

pub after-other : (n e d k : ℕ) (h : Heap) → k < n → k ≢ e → k ≢ d → after_transfer n e d h k ≡ h k
after-other n e d k h lt ne nd =
    spend-other e d (chosen n e d h) k (big_neg n d h) ne nd ∙ neg-other n d k h (omega arith)

-- What a round leaves of the surplus s and the need m.
pub after-less :
    (n e d s m : ℕ) (h : Heap)
    → e < n
    → d < n
    → h e ≡ pos s
    → h d ≡ negsuc (m - 1)
    → 0 < m
    → s < m
    → (after_transfer n e d h e ≡ pos 0)
      × (after_transfer n e d h d ≡ negsuc (m - 1))
      × (transfer_of n e d h ≡ give e d s)
after-less n e d s m h en dn he hd hm lt = rw (chosen-less n e d s m h (omega arith) he hd hm lt) (
  (spend-same e d (big_neg n d h) (apart e d s (m - 1) h he hd)).0,
  (spend-same e d (big_neg n d h) (apart e d s (m - 1) h he hd)).1
      ∙ neg-other n d d h (omega arith)
      ∙ hd,
  ground arith,
)

pub after-more :
    (n e d s m : ℕ) (h : Heap)
    → e < n
    → d < n
    → h e ≡ pos s
    → h d ≡ negsuc (m - 1)
    → 0 < m
    → m ≤ s
    → (after_transfer n e d h e ≡ pos (s - m))
      × (after_transfer n e d h d ≡ pos 0)
      × (transfer_of n e d h ≡ give e d m)
after-more n e d s m h en dn he hd hm le =
    rw (chosen-more n e d s m h (omega arith) he hd hm le)
      (freed.0, freed.1, ground (arith, neg-need n d m h hd hm))
  where
    freed : (spend e d n (big_neg n d h) e ≡ pos (s - m)) × (spend e d n (big_neg n d h) d ≡ pos 0)
    freed =
        spend-fresh e d n s m (big_neg n d h) (apart e d s (m - 1) h he hd) (omega arith)
          (omega arith) (neg-other n d e h (omega arith) ∙ he)
          (neg-other n d d h (omega arith) ∙ hd) (neg-need n d m h hd hm) hm le

pub Excess-after :
    (n e d m : ℕ) (h : Heap) (es : Amounts)
    → h d ≡ negsuc m
    → All (λ p. e < p.0) es
    → Excess n h es
    → Excess n (after_transfer n e d h) es
Excess-after n e d m h [] hd a x = tt
Excess-after n e d m h ((k, s) ∷ es) hd (lt, a) (hk, s-pos, k-lt, rising, x) = (
  after-other n e d k h k-lt (omega arith) (apart k d s m h hk hd) ∙ hk,
  s-pos,
  k-lt,
  rising,
  Excess-after n e d m h es hd a x,
)

pub Deficit-after :
    (n e d s : ℕ) (h : Heap) (ds : Amounts)
    → h e ≡ pos s
    → All (λ p. d < p.0) ds
    → Deficit n h ds
    → Deficit n (after_transfer n e d h) ds
Deficit-after n e d s h [] he a x = tt
Deficit-after n e d s h ((k, m) ∷ ds) he (lt, a) (hk, m-pos, k-lt, rising, x) = (
  after-other n e d k h k-lt (λ same. apart e k s (m - 1) h he hk (sym same)) (omega arith) ∙ hk,
  m-pos,
  k-lt,
  rising,
  Deficit-after n e d s h ds he a x,
)
