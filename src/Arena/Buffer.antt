-- ===== src/Arena/Buffer.antt =====
-- examples/rule_of_0_5/main.cpp: `ResponseBuffer`, over chunks of text.
use Prim.Native.String.{len}
use text.Mathlib.TextPositions.{len-append}
use cpp_design_patterns.Prelude.{ℕ, ◌+◌, ◌≡◌, refl, String, ◌<>◌, List, [], ◌∷◌, ◌++◌}

pub record ResponseBuffer : Type 0 where
  pub chunks : List String

unfoldable pub append : String → ResponseBuffer → ResponseBuffer
append chunk b = record { chunks = b.chunks ++ (chunk ∷ []) }

-- The first loop of `join`, which adds up the sizes for `reserve`.
total_from : ℕ → List String → ℕ
total_from total [] = total
total_from total (c ∷ cs) = total_from (total + len c) cs

pub reserved : ResponseBuffer → ℕ
unfolding total_from
reserved b = total_from 0 b.chunks

-- The second loop.
join_from : String → List String → String
join_from out [] = out
join_from out (c ∷ cs) = join_from (out <> c) cs

unfoldable pub join : ResponseBuffer → String
unfolding join_from
join b = join_from "" b.chunks

join_from-append :
    (out : String) (cs : List String) (c : String)
    → join_from out (cs ++ (c ∷ [])) ≡ join_from out cs <> c
unfolding join_from
join_from-append out [] c = refl
join_from-append out (d ∷ cs) c = join_from-append (out <> d) cs c

len-join_from : (out : String) (cs : List String) → len (join_from out cs) ≡ total_from (len out) cs
unfolding join_from total_from
len-join_from out [] = refl
len-join_from out (c ∷ cs) = rw (← len-append out c) (len-join_from (out <> c) cs)

-- The bytes that `join` reserves are exactly those of the text that it gives, and a chunk appended last stands at its
-- end.
pub join_result :
    (b : ResponseBuffer) (chunk : String)
    → (len (join b) ≡ reserved b) × (join (append chunk b) ≡ join b <> chunk)
unfolding join reserved append
join_result b chunk = (len-join_from "" b.chunks, join_from-append "" b.chunks chunk)
