-- ===== src/Tests/Stream.antt =====
-- A run of the event stream.
use llm_provider_router.Prelude.{◌≡◌, refl, some, [], ◌∷◌, List, ℕ, text, text_eq}
use llm_provider_router.Prelude.Json.{Json, null, string, array, cons, nil}
use llm_provider_router.Responses.Sse.{json}
use llm_provider_router.Responses.Sse.Stream.{run}
use llm_provider_router.Responses.Sse.Protocol.{waiting, closed, read_all}
use llm_provider_router.Responses.Sse.Protocol.Run.{stream_read}

-- A delta of the text, then one with the reason of the end.
abbrev chunks : List (ℕ × Json)
chunks =
    (
      5,
      json (
          (
            text "choices",
            array (
                cons (json ((text "delta", json ((text "content", string (text "Hi")) ∷ [])) ∷ []))
                  nil),
          )
          ∷ []),
    )
    ∷ (
      6,
      json (
          (
            text "choices",
            array (cons (json ((text "finish_reason", string (text "stop")) ∷ [])) nil),
          )
          ∷ []),
    )
    ∷ []

stream_read_example :
    read_all waiting (run 4 0 (text "m") null chunks).0.out
    ≡ some (closed (run 4 0 (text "m") null chunks).0.sse.sequence)
stream_read_example = stream_read 4 0 (text "m") null chunks

-- The message takes seven numbered events, the last of them final.
seven : (run 4 0 (text "m") null chunks).0.sse.sequence ≡ 7
unfolding run text_eq
seven = refl
