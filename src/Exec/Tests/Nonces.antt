-- ===== src/Exec/Tests/Nonces.antt =====
-- The theorems on nonces of manager_nonce.go and on `BuildTx` at the small world.
use walletarmy.Common.{◌≡◌, refl, ◌⊎◌, inl, true, some, pos, arith, ◌||◌, ◌==◌}
use walletarmy.Nonce.{
  Tracker, acquired, gap_fill, new_tracker, acquire_nonce, release_nonce, fill_gap, advance,
  next_nonce, get_pending_nonce, set_pending_nonce, claim_gap, search_gap, clean_claims,
}
use walletarmy.Manager.Nonces.{find_nonce_gap, is_gap}
use walletarmy.Manager.Nonces.{next_nonce as manager_nonce}
use walletarmy.Manager.Nonces.Gap.{FirstFree, find_nonce_gap-FirstFree}
use walletarmy.Manager.Nonces.Refill.{acquire-release_gap}
use walletarmy.Manager.Nonces.Stale.{acquire_stale}
use walletarmy.Manager.Network.Ready.{broadcaster_watched}
use walletarmy.Breaker.{allow, current_state, record_success, new, default_config}
use walletarmy.Manager.Network.{
  reader, broadcaster, component, allow_network, record_network_success, init_network,
}
use walletarmy.Manager.Nonces.{reserve_nonce, persist_nonce_acquisition}
use walletarmy.Exec.Build.{Draft, build_tx, choose_gas_limit, choose_nonce, choose_prices}
use walletarmy.Exec.Build.Claims.{built_nonce, build_tx-AddsClaim}
use walletarmy.Exec.Tests.{small, net, start, params, unpriced, law}

-- The nonces 5, 6 and 7 were handed out.
abbrev three_taken : Tracker
three_taken = record {
  pending_nonces = λ w c. some (pos 7);
  claimed_gaps = λ w c n. n == 5 || n == 6 || n == 7;
}

find_nonce_gap-FirstFree_example :
    FirstFree
      (λ n. is_gap (three_taken.claimed_gaps 1 1 n) (some 0))
      5
      9
      (find_nonce_gap (λ w c n. some 0) 1 1 5 9 (three_taken.claimed_gaps 1 1))
find_nonce_gap-FirstFree_example =
    find_nonce_gap-FirstFree (λ w c n. some 0) 1 1 5 9 (three_taken.claimed_gaps 1 1)

acquire-release_gap_example :
    (acquire_nonce 1 1 5 5
      (some (find_nonce_gap (λ w c n. some 0)))
      (release_nonce 1 1 6 three_taken)).0
    ≡ acquired 6 gap_fill
acquire-release_gap_example =
    acquire-release_gap 1 1 5 5 7 6 (λ w c n. some 0) three_taken refl (omega arith) (omega arith)
      (omega arith) refl (λ k a z. ground arith)

acquire_stale_example :
    let finder = some (find_nonce_gap (λ w c n. some 0)) in
    (acquire_nonce 1 1 5 5 finder (acquire_nonce 1 1 5 6 finder three_taken).1).0
    ≡ acquired 5 gap_fill
acquire_stale_example =
    acquire_stale 1 1 (λ w c n. some 0) 5 6 5 5 7 three_taken refl (omega arith) (omega arith)
      (omega arith) (omega arith) refl

abbrev priced : Draft small
priced = record unpriced { gas_price = 10 }

build_tx-AddsClaim_example :
    (start.nonce_tracker.claimed_gaps 1 1 5 ≡ true)
    ⊎ (built_nonce small (build_tx small params priced start).0 ≡ some 5)
unfolding build_tx choose_gas_limit choose_nonce choose_prices manager_nonce reader component
    allow_network record_network_success init_network allow current_state record_success new
    default_config reserve_nonce persist_nonce_acquisition acquire_nonce fill_gap search_gap
    clean_claims advance next_nonce get_pending_nonce set_pending_nonce claim_gap new_tracker
build_tx-AddsClaim_example = build_tx-AddsClaim small params priced 5 law start refl

broadcaster_watched_example :
    ((broadcaster small net start).1.broadcasters 1 ≡ true)
    × ((broadcaster small net start).1.tx_monitors 1 ≡ true)
unfolding broadcaster component allow_network record_network_success init_network allow
    current_state record_success new default_config
broadcaster_watched_example = broadcaster_watched small net (λ w. refl) start (inl refl) refl
