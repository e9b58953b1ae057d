-- ===== src/Errors/Signature/Grouping.antt =====
-- internal/agent/errors/signature.go: what the signature of an error does not depend on.
use mathlib.Core.Option
use intelligent_odoo_dev_too.Prelude.{
  ℕ, ◌≡◌, refl, sym, ap, ap₂, ◌∙◌, false, Option, none, some, [], ◌∷◌, ◌++◌, if◌then◌else◌,
}
use intelligent_odoo_dev_too.Prelude.Text.{Bytes, codes, after_last}
use intelligent_odoo_dev_too.Errors.Signature.{
  Library, OriginFrame, extract_origin_frame, module_path, short_file, or_text, generate_signature,
  is_empty, signature_parts, join_zero, normalize_message,
}
use intelligent_odoo_dev_too.Errors.Signature.Frames.{
  Traceback, IsPrinted, print, extract_origin_frame-print,
}

abbrev addons : Bytes
addons = codes "/addons/"

after_last-cons :
    (mark : Bytes) (c : ℕ) (s t : Bytes)
    → after_last mark s ≡ some t
    → after_last mark (c ∷ s) ≡ some t
unfolding after_last
after_last-cons mark c s t h = rw h refl

-- The last mark is the one with no later one after it.
after_last-addons :
    (prefix rest : Bytes)
    → after_last addons (codes "/" ++ rest) ≡ none
    → after_last addons (prefix ++ (addons ++ rest)) ≡ some rest
unfolding after_last
after_last-addons [] rest h = rw h refl
after_last-addons (c ∷ prefix) rest h =
    after_last-cons addons c (prefix ++ (addons ++ rest)) rest (after_last-addons prefix rest h)

-- Two tracebacks whose last frames are in the same function of the same file of an addon, wherever
-- the addons are installed.
pub record IsSameCode (t u : Traceback) : Type 0 where
  pub prefix : Bytes
  pub prefix' : Bytes
  pub path : Bytes
  pub file : t.frame.file ≡ prefix ++ (addons ++ path)
  pub file' : u.frame.file ≡ prefix' ++ (addons ++ path)
  pub no_later : after_last addons (codes "/" ++ path) ≡ none
  pub function : t.frame.function ≡ u.frame.function

module_path-addons :
    (f : OriginFrame) (prefix path : Bytes)
    → f.file ≡ prefix ++ (addons ++ path)
    → after_last addons (codes "/" ++ path) ≡ none
    → module_path f ≡ path
unfolding module_path
module_path-addons f prefix path e h =
    ap (λ o. or_text o (or_text (after_last (codes "/odoo/") f.file) (short_file f)))
      (ap (after_last addons) e ∙ after_last-addons prefix path h)

is_empty-addons : (prefix path : Bytes) → is_empty (prefix ++ (addons ++ path)) ≡ false
is_empty-addons [] path = refl
is_empty-addons (c ∷ prefix) path = refl

-- What is hashed for a frame inside the addons.
signature_parts-addons :
    (error_type normalized : Bytes) (f : OriginFrame) (prefix path : Bytes)
    → f.file ≡ prefix ++ (addons ++ path)
    → after_last addons (codes "/" ++ path) ≡ none
    → signature_parts error_type f normalized ≡ error_type ∷ path ∷ f.function ∷ normalized ∷ []
signature_parts-addons error_type normalized f prefix path e h =
    ap₂
      (λ b m.
        if b then error_type ∷ normalized ∷ [] else error_type ∷ m ∷ f.function ∷ normalized ∷ [])
      (ap is_empty e ∙ is_empty-addons prefix path) (module_path-addons f prefix path e h)

map-congr :
    (f g : Bytes → Bytes) (o : Option Bytes)
    → ((s : Bytes) → f s ≡ g s)
    → Option.map f o ≡ Option.map g o
map-congr f g none h = refl
map-congr f g (some s) h = ap some (h s)

signature_parts-same :
    (error_type normalized : Bytes) (t u : Traceback)
    → IsPrinted t
    → IsPrinted u
    → IsSameCode t u
    → signature_parts error_type (extract_origin_frame (print t)) normalized
      ≡ signature_parts error_type (extract_origin_frame (print u)) normalized
signature_parts-same error_type normalized t u p q s =
    let parts = λ (f : OriginFrame). signature_parts error_type f normalized in
    ap parts (extract_origin_frame-print t p)
    ∙ signature_parts-addons error_type normalized t.frame s.prefix s.path s.file s.no_later
    ∙ ap (λ n. error_type ∷ s.path ∷ n ∷ normalized ∷ []) s.function
    ∙ sym (signature_parts-addons error_type normalized u.frame s.prefix' s.path s.file' s.no_later)
    ∙ sym (ap parts (extract_origin_frame-print u q))

-- Errors of the same type and message get the same signature if the last frames of their tracebacks
-- are in the same function of the same file below "/addons/", whatever stands before "/addons/" in
-- the file's path, whatever the line number, the indentation and the other lines.
pub generate_signature-same_code :
    (lib : Library) (rounds : ℕ) (error_type message : Bytes) (t u : Traceback)
    → IsPrinted t
    → IsPrinted u
    → IsSameCode t u
    → generate_signature lib rounds error_type message (print t)
      ≡ generate_signature lib rounds error_type message (print u)
unfolding generate_signature
generate_signature-same_code lib rounds error_type message t u p q s =
    map-congr
      (λ n. lib.hash16 (join_zero (signature_parts error_type (extract_origin_frame (print t)) n)))
      (λ n. lib.hash16 (join_zero (signature_parts error_type (extract_origin_frame (print u)) n)))
      (normalize_message lib rounds message)
      (λ n. ap (λ ps. lib.hash16 (join_zero ps)) (signature_parts-same error_type n t u p q s))
