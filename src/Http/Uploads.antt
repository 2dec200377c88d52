-- ===== src/Http/Uploads.antt =====
-- mountUploads of server/router.go: the file server of the uploads, and the prefixes that it refuses.
use olympiad_next.Prelude.{
  ℕ, ◌≡◌, refl, ap, ◌∙◌, Bool, true, false, ◌||◌, none, some, List, [], ◌∷◌, ◌++◌, any, any-weaken,
  arith, ◌==◌, ==_iff, nat_eq, if◌then◌else◌,
}
use mathlib.Core.List.{reverse}
use olympiad_next.Text.{Text, text_eq, eq_text, lit, codes, trim_prefix}
use olympiad_next.Text.Path.{is_slash, has_slash}
use olympiad_next.Store.{World}
use olympiad_next.Http.{done, Handler, answer, refuse}
use olympiad_next.Http.Files.{is_separator, is_clean_segment, protected_file_path}
use olympiad_next.Http.Owners.{IsSegment, is_clean_segment_iff}

abbrev extend : ℕ → List Text → List Text
extend c [] = (c ∷ []) ∷ []
extend c (s ∷ rest) = (c ∷ s) ∷ rest

-- strings.Split(s, "/")
unfoldable pub split : Text → List Text
split [] = [] ∷ []
split (c ∷ s) = let rest = split s in if is_slash c then [] ∷ rest else extend c rest

abbrev drop_last : List Text → List Text
drop_last [] = []
drop_last (_ ∷ rest) = rest

-- The elements that path.Clean keeps of a rooted path, the last kept one first in `kept`.
unfoldable pub resolve : List Text → List Text → List Text
resolve kept [] = reverse kept
resolve kept (s ∷ rest) =
    let here = resolve kept rest in
    let up = resolve (drop_last kept) rest in
    let down = resolve (s ∷ kept) rest in
    if s == [] || s == codes "." then here else if s == codes ".." then up else down

-- path.Clean("/" + s), as its elements.
unfoldable pub clean_rooted : Text → List Text
unfolding split resolve
clean_rooted s = resolve [] (split s)

-- strings.TrimPrefix
abbrev pub without_prefix : Text → Text → Text
without_prefix prefix s = elim (trim_prefix prefix s) [ none ↦ s | some rest ↦ rest ]

abbrev pub starts_with : Text → Text → Bool
starts_with prefix s = elim (trim_prefix prefix s) [ none ↦ false | some _ ↦ true ]

-- The test of the handler of `/*` for the two entries of gatedPrefixes.
unfoldable pub is_gated : Text → Bool
unfolding trim_prefix
is_gated rel =
    (rel == codes "users" || starts_with (codes "users/") rel)
    || (rel == codes "admit-cards" || starts_with (codes "admit-cards/") rel)

-- The handler of `/*` under /uploads, at the path of the URL: the answer is the path of the file that
-- http.FileServer opens. What FileServer does besides is left out: 404 for a path without a file, and a
-- redirect of a path that ends in index.html.
unfoldable pub public_upload : Text → Handler (List Text)
unfolding is_gated clean_rooted
public_upload url_path =
    let rel = without_prefix (codes "/uploads/") url_path in
    if is_gated rel then refuse 404 (lit "404 page not found") else answer 200 (clean_rooted rel)

split-last : (s : Text) → has_slash s ≡ false → split s ≡ s ∷ []
unfolding split any
split-last [] h = refl
split-last (c ∷ s) h = ground (arith, split-last s)

split-first : (s t : Text) → has_slash s ≡ false → split (s ++ (b'/' ∷ t)) ≡ s ∷ split t
unfolding split any
split-first [] t h = refl
split-first (c ∷ s) t h = ground (arith, split-first s t)

resolve-down :
    (kept rest : List Text) (s : Text)
    → IsSegment s
    → resolve kept (s ∷ rest) ≡ resolve (s ∷ kept) rest
unfolding resolve
resolve-down kept rest s k = ground (
  arith,
  ==_iff s [],
  ==_iff s (codes "."),
  ==_iff s (codes ".."),
  k.filled,
  k.not_here,
  k.not_parent,
)

IsSegment-no_slash : (s : Text) → IsSegment s → has_slash s ≡ false
IsSegment-no_slash s k = any-weaken is_separator is_slash s (λ c e. ground arith) k.single

-- The URL of a file below the uploads, with a second slash after the first one.
abbrev tail : Text → Text → Text → Text
tail top_dir owner name = top_dir ++ (b'/' ∷ (owner ++ (b'/' ∷ name)))

abbrev pub doubled : Text → Text → Text → Text
doubled top_dir owner name = codes "/uploads//" ++ tail top_dir owner name

module _ (top_dir owner name : Text) where
  split-tail :
      IsSegment top_dir
      → IsSegment owner
      → IsSegment name
      → split (tail top_dir owner name) ≡ top_dir ∷ owner ∷ name ∷ []
  split-tail t o n =
      split-first top_dir _ (IsSegment-no_slash top_dir t)
      ∙ ap (◌∷◌ top_dir) (
          split-first owner name (IsSegment-no_slash owner o)
          ∙ ap (◌∷◌ owner) (split-last name (IsSegment-no_slash name n)))

  clean_rooted-tail :
      IsSegment top_dir
      → IsSegment owner
      → IsSegment name
      → clean_rooted (b'/' ∷ tail top_dir owner name) ≡ top_dir ∷ owner ∷ name ∷ []
  unfolding clean_rooted split resolve eq_text
  clean_rooted-tail t o n =
      ap (resolve []) (split-tail t o n)
      ∙ resolve-down [] (owner ∷ name ∷ []) top_dir t
      ∙ resolve-down (top_dir ∷ []) (name ∷ []) owner o
      ∙ resolve-down (owner ∷ top_dir ∷ []) [] name n

  ungated : is_gated (b'/' ∷ tail top_dir owner name) ≡ false
  unfolding is_gated trim_prefix eq_text
  ungated = refl

  segments :
      (path : List Text)
      → protected_file_path top_dir owner name ≡ some path
      → (path ≡ top_dir ∷ owner ∷ name ∷ [])
        × (is_clean_segment top_dir ≡ true)
        × (is_clean_segment owner ≡ true)
        × (is_clean_segment name ≡ true)
  unfolding protected_file_path
  segments path guarded = ground arith

  -- Every file that serveProtectedFile guards is served to anyone who doubles the slash after `/uploads` in
  -- its URL: the test for the gated prefixes looks at the path before the file server cleans it.
  pub public_upload-protected_file_path :
      (path : List Text) (w : World)
      → protected_file_path top_dir owner name ≡ some path
      → (public_upload (doubled top_dir owner name) w).0 ≡ done 200 path
  unfolding public_upload answer trim_prefix
  public_upload-protected_file_path path w guarded =
      let (same, t, u, n) = segments path guarded in
      let clean =
        clean_rooted-tail ((is_clean_segment_iff top_dir).0 t) ((is_clean_segment_iff owner).0 u)
          ((is_clean_segment_iff name).0 n) in
      rw (ungated, clean, same) refl
