-- ===== src/Downloads/Ogg.antt =====
-- The repair of the header of a decrypted file: rebuildOGG of src/core/dl/spotify.go. A file is the list
-- of its bytes. Go ranges over the map of patches in an order that it does not promise.
use mathlib.Core.List.{Permᴰ}
use mathlib.Core.Path.{subst}
use yes.Prelude.{
  ℕ, zero, suc, ◌+◌, ◌≤◌, ◌≡◌, refl, sym, ap, ◌∙◌, ◌⊎◌, inl, inr, Bool, false, List, [], ◌∷◌,
  Option, none, some, length, All, if◌then◌else◌, arith,
}

-- `file.WriteAt(data, offset)` on a file that is long enough or grows, with zeros in the gap.
unfoldable pub write_at : ℕ → List ℕ → List ℕ → List ℕ
write_at n [] file = file
write_at zero (b ∷ data_left) [] = b ∷ write_at zero data_left []
write_at zero (b ∷ data_left) (x ∷ file) = b ∷ write_at zero data_left file
write_at (suc n) (b ∷ data_left) [] = 0 ∷ write_at n (b ∷ data_left) []
write_at (suc n) (b ∷ data_left) (x ∷ file) = x ∷ write_at n (b ∷ data_left) file

-- An offset and the bytes for it.
abbrev pub Patch : Type 0
Patch = ℕ × List ℕ

abbrev ogg_s : List ℕ
ogg_s = 79 ∷ 103 ∷ 103 ∷ 83 ∷ []

abbrev ten_zeros : List ℕ
ten_zeros = 0 ∷ 0 ∷ 0 ∷ 0 ∷ 0 ∷ 0 ∷ 0 ∷ 0 ∷ 0 ∷ 0 ∷ []

abbrev pub patches : List Patch
patches =
    (0, ogg_s)
    ∷ (6, ten_zeros)
    ∷ (26, 1 ∷ 30 ∷ 1 ∷ 118 ∷ 111 ∷ 114 ∷ 98 ∷ 105 ∷ 115 ∷ [])
    ∷ (39, 2 ∷ [])
    ∷ (40, 68 ∷ 172 ∷ 0 ∷ 0 ∷ [])
    ∷ (48, 0 ∷ 226 ∷ 4 ∷ 0 ∷ [])
    ∷ (56, 184 ∷ 1 ∷ [])
    ∷ (58, ogg_s)
    ∷ (62, ten_zeros)
    ∷ []

-- The loop over the patches in one order of the map. `fails` says at which offsets writing fails; the
-- loop ends there. The answer is the file and the offset that failed.
unfoldable pub rebuild_ogg : List Patch → (ℕ → Bool) → List ℕ → List ℕ × Option ℕ
unfolding write_at
rebuild_ogg [] fails file = (file, none)
rebuild_ogg (p ∷ ps) fails file =
    let later = rebuild_ogg ps fails (write_at p.0 p.1 file) in
    if fails p.0 then (file, some p.0) else later

-- The range of one patch lies behind that of the other.
Apart : Patch → Patch → Type 0
Apart p q = (p.0 + length p.1 ≤ q.0) ⊎ (q.0 + length q.1 ≤ p.0)

write_at-nil : (n : ℕ) (file : List ℕ) → write_at n [] file ≡ file
unfolding write_at
write_at-nil zero file = refl
write_at-nil (suc n) file = refl

write_at_comm :
    (a b : ℕ) (d e file : List ℕ)
    → a + length d ≤ b
    → write_at a d (write_at b e file) ≡ write_at b e (write_at a d file)
unfolding write_at
write_at_comm a b [] e file h = write_at-nil a _ ∙ ap (write_at b e) (sym (write_at-nil a file))
write_at_comm a b (x ∷ d) [] file h = write_at-nil b _ ∙ sym (write_at-nil b _)
write_at_comm zero zero (x ∷ d) (y ∷ e) file h = ground (arith, h)
write_at_comm zero (suc b) (x ∷ d) (y ∷ e) [] h =
    ap (λ f. x ∷ f) (write_at_comm zero b d (y ∷ e) [] (omega arith))
write_at_comm zero (suc b) (x ∷ d) (y ∷ e) (z ∷ file) h =
    ap (λ f. x ∷ f) (write_at_comm zero b d (y ∷ e) file (omega arith))
write_at_comm (suc a) zero (x ∷ d) (y ∷ e) file h = ground (arith, h)
write_at_comm (suc a) (suc b) (x ∷ d) (y ∷ e) [] h =
    ap (λ f. 0 ∷ f) (write_at_comm a b (x ∷ d) (y ∷ e) [] (omega arith))
write_at_comm (suc a) (suc b) (x ∷ d) (y ∷ e) (z ∷ file) h =
    ap (λ f. z ∷ f) (write_at_comm a b (x ∷ d) (y ∷ e) file (omega arith))

Apart-comm :
    (p q : Patch) (file : List ℕ)
    → Apart p q
    → write_at p.0 p.1 (write_at q.0 q.1 file) ≡ write_at q.0 q.1 (write_at p.0 p.1 file)
unfolding Apart
Apart-comm p q file (inl h) = write_at_comm p.0 q.0 p.1 q.1 file h
Apart-comm p q file (inr h) = sym (write_at_comm q.0 p.0 q.1 p.1 file h)

-- The file after all patches, in the order of the list.
patched : List Patch → List ℕ → List ℕ
patched [] file = file
patched (p ∷ ps) file = patched ps (write_at p.0 p.1 file)

-- Every patch lies apart from all that follow it.
AllApart : List Patch → Type 0
unfolding Apart
AllApart [] = Unit
AllApart (p ∷ ps) = All (Apart p) ps × AllApart ps

Apart-sym : (p q : Patch) → Apart p q → Apart q p
unfolding Apart
Apart-sym p q (inl h) = inr h
Apart-sym p q (inr h) = inl h

All-Permᴰ : (P : Patch → Type 0) {ps qs : List Patch} → Permᴰ ps qs → All P ps → All P qs
All-Permᴰ P Permᴰ.nil h = tt
All-Permᴰ P (Permᴰ.cons e d) (h, hs) = (subst P e h, All-Permᴰ P d hs)
All-Permᴰ P (Permᴰ.swap e f) (h, (k, hs)) = (subst P f k, (subst P e h, hs))
All-Permᴰ P (Permᴰ.trans d e) h = All-Permᴰ P e (All-Permᴰ P d h)

AllApart-Permᴰ : {ps qs : List Patch} → Permᴰ ps qs → AllApart ps → AllApart qs
unfolding AllApart
AllApart-Permᴰ Permᴰ.nil h = tt
AllApart-Permᴰ (Permᴰ.cons {b = b} {l₁ = l₁} e d) (h, hs) =
    (All-Permᴰ (Apart b) d (subst (λ p. All (Apart p) l₁) e h), AllApart-Permᴰ d hs)
AllApart-Permᴰ (Permᴰ.swap {a = a} {b = b} {b' = c} {l = l} e f) ((h, hp), (hq, hs)) = (
  (
    subst (λ p. Apart p c) f (subst (λ p. Apart b p) e (Apart-sym a b h)),
    subst (λ p. All (Apart p) l) f hq,
  ),
  (subst (λ p. All (Apart p) l) e hp, hs),
)
AllApart-Permᴰ (Permᴰ.trans d e) h = AllApart-Permᴰ e (AllApart-Permᴰ d h)

patched-Permᴰ :
    {ps qs : List Patch}
    → Permᴰ ps qs
    → AllApart ps
    → (file : List ℕ) → patched ps file ≡ patched qs file
unfolding patched AllApart
patched-Permᴰ Permᴰ.nil h file = refl
patched-Permᴰ (Permᴰ.cons {b = b} {l₁ = l₁} e d) (h, hs) file =
    ap (λ p. patched l₁ (write_at p.0 p.1 file)) e ∙ patched-Permᴰ d hs (write_at b.0 b.1 file)
patched-Permᴰ (Permᴰ.swap {a = a} {b = b} {a' = c} {l = l} e f) ((h, hp), (hq, hs)) file =
    ap (patched l) (sym (Apart-comm a b file h))
    ∙ (ap (λ p. patched l (write_at a.0 a.1 (write_at p.0 p.1 file))) f
        ∙ ap (λ p. patched l (write_at p.0 p.1 (write_at c.0 c.1 file))) e)
patched-Permᴰ (Permᴰ.trans d e) h file =
    patched-Permᴰ d h file ∙ patched-Permᴰ e (AllApart-Permᴰ d h) file

rebuild_ogg-patched :
    (ps : List Patch) (fails : ℕ → Bool) (file : List ℕ)
    → ((offset : ℕ) → fails offset ≡ false)
    → rebuild_ogg ps fails file ≡ (patched ps file, none)
unfolding rebuild_ogg patched
rebuild_ogg-patched [] fails file h = refl
rebuild_ogg-patched (p ∷ ps) fails file h =
    ground (arith, h p.0, rebuild_ogg-patched ps fails (write_at p.0 p.1 file) h)

patches-AllApart : AllApart patches
unfolding AllApart Apart
patches-AllApart = ground arith

-- If no write fails, then in whatever order Go ranges over the patches, the file after rebuildOGG is
-- the same: the one of the order in the source.
pub rebuild_ogg-order :
    (order : List Patch) (fails : ℕ → Bool) (file : List ℕ)
    → Permᴰ patches order
    → ((offset : ℕ) → fails offset ≡ false)
    → rebuild_ogg order fails file ≡ rebuild_ogg patches fails file
rebuild_ogg-order order fails file d h =
    rebuild_ogg-patched order fails file h
    ∙ (ap (λ f. (f, none)) (sym (patched-Permᴰ d patches-AllApart file))
        ∙ sym (rebuild_ogg-patched patches fails file h))
