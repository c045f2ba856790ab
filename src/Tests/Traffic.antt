-- ===== src/Tests/Traffic.antt =====
-- Runs of the byte counts.
use llm_provider_router.Prelude.{◌≡◌, refl, some, [], ◌∷◌, arith, text_equality}
use llm_provider_router.Prelude.Dict.{contains_key}
use llm_provider_router.Traffic.{Traffic, new, new_buckets, record_up, record_down_chunk, window}
use llm_provider_router.Traffic.Bounds.{IsBounded, sessions-IsBounded}

abbrev busy : Traffic
busy = record {
  sessions =
      (b'a' ∷ [], record { buckets = new_buckets; total_up = 1; total_down = 2; last_activity = 3 })
      ∷ [];
  global_buckets = new_buckets;
  global_total_up = 1;
  global_total_down = 2;
}

sessions-IsBounded_example :
    IsBounded (record_up 9 (some (b'b' ∷ [])) 4 busy).sessions
    × IsBounded (record_down_chunk 9 (some (b'b' ∷ [])) 4 busy).sessions
unfolding contains_key
sessions-IsBounded_example = sessions-IsBounded 9 4 (some (b'b' ∷ [])) busy (refl, tt) (omega arith)

-- What was sent at 9 is in the window of five seconds at 13, and no longer at 14.
last_in_window : window 13 5 (record_up 9 (some (b'b' ∷ [])) 4 new).global_buckets ≡ (4, 0)
unfolding window record_up new
last_in_window = refl

out_of_window : window 14 5 (record_up 9 (some (b'b' ∷ [])) 4 new).global_buckets ≡ (0, 0)
unfolding window record_up new
out_of_window = refl
