-- ===== src/Sessions.antt =====
-- src/vc/sessions: session strings of Pyrogram and Telethon, as lists of bytes. The decoding of base64, the
-- addresses of data centers and the text of an IP address are the libraries': parameters.
use yes.Prelude.{
  ℕ, zero, suc, ◌+◌, ◌*◌, ◌%◌, ◌^◌, ◌<◌, ◌≤◌, ◌≡◌, refl, ap, ◌∙◌, Bool, false, not, ◌&&◌, List, [],
  ◌∷◌, ◌++◌, Option, none, some, String, ltb, nat_eq, length, All, arith, Bool-cases, inl, inr,
  if◌then◌else◌,
}

-- `telegram.Session`, as far as the decoders set it; `port` is 0 where they set none.
pub record Session : Type 0 where
  pub host : String
  pub port : ℕ
  pub app_id : ℕ
  pub key : List ℕ

unfoldable pub byte_at : ℕ → List ℕ → ℕ
byte_at n [] = 0
byte_at zero (b ∷ bytes) = b
byte_at (suc n) (b ∷ bytes) = byte_at n bytes

-- `data[from : from + n]`
unfoldable pub bytes_from : ℕ → ℕ → List ℕ → List ℕ
bytes_from from n [] = []
bytes_from zero zero (b ∷ bytes) = []
bytes_from zero (suc n) (b ∷ bytes) = b ∷ bytes_from zero n bytes
bytes_from (suc from) n (b ∷ bytes) = bytes_from from n bytes

-- The loop that pads the text with `=`, which is 61; on fuel.
unfoldable pub pad : ℕ → List ℕ → List ℕ
pad zero s = s
pad (suc fuel) s =
    let rest = pad fuel (s ++ 61 ∷ []) in if not (nat_eq (length s % 4) 0) then rest else s

abbrev pub padded : List ℕ → List ℕ
padded s = pad 3 s

-- The four bytes as a `uint32`; an `int32` of it is negative from 2 ^ 31 on.
unfoldable pub app_id_of : List ℕ → ℕ
app_id_of packed =
    (byte_at 1 packed * 2 ^ 24
      + byte_at 2 packed * 2 ^ 16
      + byte_at 3 packed * 2 ^ 8
      + byte_at 4 packed)
    % 2 ^ 32

-- A session string that is decoded, or an error, or a panic.
pub data Decoded : Type 0 where
  session : Session → Decoded
  bad_base64 bad_length bad_app_id : Decoded
  panics : Decoded

unfoldable pub pyrogram_data : (ℕ → Bool → String) → Option (List ℕ) → Decoded
unfolding app_id_of byte_at bytes_from
pyrogram_data data_center none = bad_base64
pyrogram_data data_center (some packed) =
    if not (nat_eq (length packed) 271)
    then bad_length
    else if not (ltb (app_id_of packed) (2 ^ 31))
    then bad_app_id
    else session (record {
      host = data_center (byte_at 0 packed) (not (nat_eq (byte_at 5 packed) 0));
      port = 0;
      app_id = app_id_of packed;
      key = bytes_from 6 256 packed;
    })

unfoldable pub decode_pyrogram_session_string :
    (List ℕ → Option (List ℕ)) → (ℕ → Bool → String) → List ℕ → Decoded
unfolding pyrogram_data pad
decode_pyrogram_session_string decode data_center s = pyrogram_data data_center (decode (padded s))

-- The length of the address, by the length of the data.
unfoldable pub ip_length : List ℕ → ℕ
ip_length packed = if nat_eq (length packed) 352 then 16 else 4

unfoldable pub telethon_data : (List ℕ → String) → Option (List ℕ) → Decoded
unfolding ip_length byte_at bytes_from
telethon_data ip_text none = bad_base64
telethon_data ip_text (some packed) =
    if not (nat_eq (length packed) (1 + ip_length packed + 2 + 256))
    then bad_length
    else session (record {
      host = ip_text (bytes_from 1 (ip_length packed) packed);
      port = byte_at (1 + ip_length packed) packed * 2 ^ 8 + byte_at (2 + ip_length packed) packed;
      app_id = 0;
      key = bytes_from (3 + ip_length packed) 256 packed;
    })

-- `sessionString[1:]` of the empty text panics.
unfoldable pub decode_telethon_session_string :
    (List ℕ → Option (List ℕ)) → (List ℕ → String) → List ℕ → Decoded
unfolding telethon_data
decode_telethon_session_string decode ip_text [] = panics
decode_telethon_session_string decode ip_text (c ∷ s) = telethon_data ip_text (decode s)

length-append : (xs ys : List ℕ) → length (xs ++ ys) ≡ length xs + length ys
length-append [] ys = omega arith
length-append (x ∷ xs) ys = omega (arith, length-append xs ys)

-- The loop that pads a session string ends with a length that four divides, after at most three rounds.
pub length-padded : (s : List ℕ) → length (padded s) % 4 ≡ 0
unfolding pad
length-padded s = ground (
  arith,
  length-append s (61 ∷ []),
  length-append (s ++ 61 ∷ []) (61 ∷ []),
  length-append ((s ++ 61 ∷ []) ++ 61 ∷ []) (61 ∷ []),
)

length-bytes_from :
    (from n : ℕ) (packed : List ℕ)
    → from + n ≤ length packed
    → length (bytes_from from n packed) ≡ n
unfolding bytes_from
length-bytes_from from n [] h = omega arith
length-bytes_from zero zero (b ∷ packed) h = refl
length-bytes_from zero (suc n) (b ∷ packed) h =
    ap suc (length-bytes_from zero n packed (omega arith))
length-bytes_from (suc from) n (b ∷ packed) h = length-bytes_from from n packed (omega arith)

-- Whether a decoder gives a session, with a key of 256 bytes.
abbrev pub has_full_key : Decoded → Bool
has_full_key (session s) = nat_eq (length s.key) 256
has_full_key _ = false

telethon-key :
    (ip_text : List ℕ → String) (packed : List ℕ)
    → has_full_key (telethon_data ip_text (some packed)) ≡ nat_eq (length packed) 263
unfolding telethon_data ip_length
telethon-key ip_text packed = elim (Bool-cases (nat_eq (length packed) 263)) [
  | inl same ↦ ground (arith, same, length-bytes_from 7 256 packed (ground (arith, same)))
  | inr other ↦ ground (arith, other)
]

pyrogram-key :
    (data_center : ℕ → Bool → String) (packed : List ℕ)
    → has_full_key (pyrogram_data data_center (some packed))
      ≡ (nat_eq (length packed) 271 && ltb (app_id_of packed) (2 ^ 31))
unfolding pyrogram_data
pyrogram-key data_center packed = elim (Bool-cases (nat_eq (length packed) 271)) [
  | inl same ↦ ground (arith, same, length-bytes_from 6 256 packed (ground (arith, same)))
  | inr other ↦ ground (arith, other)
]

byte_at-bound : (n : ℕ) (packed : List ℕ) → All (λ b. b < 256) packed → byte_at n packed < 256
unfolding byte_at
byte_at-bound n [] h = omega arith
byte_at-bound zero (b ∷ packed) h = h.0
byte_at-bound (suc n) (b ∷ packed) h = byte_at-bound n packed h.1

app_id_of-bound :
    (packed : List ℕ)
    → All (λ b. b < 256) packed
    → ltb (app_id_of packed) (2 ^ 31) ≡ ltb (byte_at 1 packed) 128
unfolding app_id_of
app_id_of-bound packed h = ground (
  arith,
  byte_at-bound 1 packed h,
  byte_at-bound 2 packed h,
  byte_at-bound 3 packed h,
  byte_at-bound 4 packed h,
)

-- The Telethon decoder gives a session exactly for data of 263 bytes, which have an address of four
-- bytes; its key then has 256 bytes. Data with an address of sixteen bytes, 275 in all, are refused.
pub telethon_lem :
    (decode : List ℕ → Option (List ℕ)) (ip_text : List ℕ → String) (c : ℕ) (s packed : List ℕ)
    → decode s ≡ some packed
    → has_full_key (decode_telethon_session_string decode ip_text (c ∷ s))
      ≡ nat_eq (length packed) 263
unfolding decode_telethon_session_string
telethon_lem decode ip_text c s packed e =
    ap (λ o. has_full_key (telethon_data ip_text o)) e ∙ telethon-key ip_text packed

-- The Pyrogram decoder gives a session exactly for data of 271 bytes whose second byte is below 128, so that
-- the app id is not negative; its key then has 256 bytes.
pub pyrogram_lem :
    (decode : List ℕ → Option (List ℕ)) (data_center : ℕ → Bool → String) (s packed : List ℕ)
    → decode (padded s) ≡ some packed
    → All (λ b. b < 256) packed
    → has_full_key (decode_pyrogram_session_string decode data_center s)
      ≡ (nat_eq (length packed) 271 && ltb (byte_at 1 packed) 128)
unfolding decode_pyrogram_session_string
pyrogram_lem decode data_center s packed e bytes =
    ap (λ o. has_full_key (pyrogram_data data_center o)) e
    ∙ pyrogram-key data_center packed
    ∙ ap (λ b. nat_eq (length packed) 271 && b) (app_id_of-bound packed bytes)
