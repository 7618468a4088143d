-- ===== src/Tests/Sessions.antt =====
-- The decoders of session strings, with a decoder of base64 that gives the data as they are.
use yes.Prelude.{
  ℕ, zero, suc, ◌≡◌, refl, false, List, [], ◌∷◌, Option, some, All, length, ◌<◌, ◌%◌, arith,
}
use yes.Sessions.{has_full_key, decode_telethon_session_string, telethon_lem, padded, length-padded}

ones : ℕ → List ℕ
ones zero = []
ones (suc n) = 1 ∷ ones n

abbrev as_is : List ℕ → Option (List ℕ)
as_is s = some s

-- The data of an address of sixteen bytes are refused.
telethon_lem_example :
    has_full_key (decode_telethon_session_string as_is (λ ip. "") (49 ∷ ones 275)) ≡ false
unfolding ones
telethon_lem_example = telethon_lem as_is (λ ip. "") 49 (ones 275) (ones 275) refl

ones-bound : (n : ℕ) → All (λ b. b < 256) (ones n)
unfolding ones
ones-bound zero = tt
ones-bound (suc n) = (omega arith, ones-bound n)

five_padded : length (padded (1 ∷ 2 ∷ 3 ∷ 4 ∷ 5 ∷ [])) % 4 ≡ 0
five_padded = length-padded (1 ∷ 2 ∷ 3 ∷ 4 ∷ 5 ∷ [])
