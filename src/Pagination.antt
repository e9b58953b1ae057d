-- ===== src/Pagination.antt =====
-- internal/dto/pagination_dto.go: pages of a list, and the query parameters that choose one.
use intelligent_odoo_dev_too.Prelude.{
  ℕ, zero, suc, ◌+◌, ◌-◌, ◌*◌, ◌/◌, ◌%◌, Bool, true, false, not, ◌&&◌, ◌||◌, Option, none, some,
  List, [], ◌∷◌, if◌then◌else◌, ◌==◌, ltb, leb,
}
use intelligent_odoo_dev_too.Prelude.Int.{
  ℤ, pos, negsuc, ◌+ℤ◌, wrap, half64, add64, ltb_ℤ, leb_ℤ, eqb_ℤ, pos_part, neg_part,
}
use intelligent_odoo_dev_too.Prelude.Text.{Bytes, codes, eqb, cut, split_at}
pub mod Pages

-- `Pagination`.
pub record Pagination : Type 0 where
  pub page : ℤ
  pub per_page : ℤ
  pub total : ℤ

-- `NewPagination`.
abbrev pub clamp_page : ℤ → ℤ
clamp_page n = if ltb_ℤ n (pos 1) then pos 1 else n

abbrev pub at_least_one : ℤ → ℤ
at_least_one n = if ltb_ℤ n (pos 1) then pos 25 else n

abbrev pub at_most_hundred : ℤ → ℤ
at_most_hundred n = if ltb_ℤ (pos 100) n then pos 100 else n

abbrev pub clamp_per_page : ℤ → ℤ
clamp_per_page n = at_most_hundred (at_least_one n)

unfoldable pub new_pagination : ℤ → ℤ → Pagination
new_pagination page per_page = record {
  page = clamp_page page;
  per_page = clamp_per_page per_page;
  total = pos 0;
}

-- The product, the quotient and the remainder of two `int`s; `none` is the panic of a zero divisor.
abbrev sign_of : Bool → ℕ → ℤ
sign_of true n = pos n
sign_of false zero = pos 0
sign_of false (suc n) = negsuc n

abbrev size_of : ℤ → ℕ
size_of (pos n) = n
size_of (negsuc n) = suc n

abbrev is_pos : ℤ → Bool
is_pos (pos n) = true
is_pos (negsuc n) = false

abbrev same_sign : Bool → Bool → Bool
same_sign a b = if a then b else not b

unfoldable pub mul64 : ℤ → ℤ → ℤ
unfolding wrap
mul64 a b = wrap half64 (sign_of (same_sign (is_pos a) (is_pos b)) (size_of a * size_of b))

unfoldable pub quot64 : ℤ → ℤ → ℤ
unfolding wrap
quot64 a b = wrap half64 (sign_of (same_sign (is_pos a) (is_pos b)) (size_of a / size_of b))

abbrev pub rem64 : ℤ → ℤ → ℤ
rem64 a b = sign_of (is_pos a) (size_of a % size_of b)

-- `Offset`.
unfoldable pub offset : Pagination → ℤ
unfolding mul64 add64
offset p = mul64 (add64 p.page (negsuc 0)) p.per_page

-- `TotalPages`.
unfoldable pub total_pages : Pagination → Option ℤ
unfolding quot64 add64
total_pages p =
    if eqb_ℤ p.total (pos 0)
    then some (pos 0)
    else if eqb_ℤ p.per_page (pos 0)
    then none
    else some (
        if ltb_ℤ (pos 0) (rem64 p.total p.per_page)
        then add64 (quot64 p.total p.per_page) (pos 1)
        else quot64 p.total p.per_page)

-- `Meta`, and `ToMeta`.
pub record Meta : Type 0 where
  pub meta_page : ℤ
  pub meta_per_page : ℤ
  pub meta_total : ℤ
  pub meta_total_pages : ℤ
  pub has_next : Bool
  pub has_prev : Bool

abbrev pub meta_of : Pagination → ℤ → Meta
meta_of p pages = record {
  meta_page = p.page;
  meta_per_page = p.per_page;
  meta_total = p.total;
  meta_total_pages = pages;
  has_next = ltb_ℤ p.page pages;
  has_prev = ltb_ℤ (pos 1) p.page;
}

abbrev pub meta_with : Pagination → Option ℤ → Option Meta
meta_with p none = none
meta_with p (some pages) = some (meta_of p pages)

unfoldable pub to_meta : Pagination → Option Meta
unfolding total_pages
to_meta p = meta_with p (total_pages p)

-- `parseInt`, from the number read so far. A byte outside ASCII is no digit.
unfoldable pub parse_from : ℤ → Bytes → ℤ
unfolding mul64 add64
parse_from n [] = n
parse_from n (c ∷ s) =
    let rest = parse_from (add64 (mul64 n (pos 10)) (pos (c - b'0'))) s in
    if ltb c b'0' || ltb b'9' c then pos 0 else rest

unfoldable pub parse_int : Bytes → ℤ
unfolding parse_from
parse_int s = parse_from (pos 0) s

-- `GetPaginationFromRequest`, on the raw query.
unfoldable pub or_parsed : Bytes → ℤ → ℤ
unfolding parse_int
or_parsed value n = let parsed = parse_int value in if ltb_ℤ (pos 0) parsed then parsed else n

unfoldable pub read_pair : Option (Bytes × Bytes) → ℤ × ℤ → ℤ × ℤ
unfolding or_parsed
read_pair none found = found
read_pair (some (key, value)) (page, per_page) =
    if eqb key (codes "page")
    then (or_parsed value page, per_page)
    else if eqb key (codes "per_page")
    then (page, or_parsed value per_page)
    else (page, per_page)

unfoldable pub read_pairs : List Bytes → ℤ × ℤ → ℤ × ℤ
unfolding read_pair cut
read_pairs [] found = found
read_pairs (pair ∷ pairs) found = read_pairs pairs (read_pair (cut (codes "=") pair) found)

unfoldable pub get_pagination_from_request : Bytes → Pagination
unfolding read_pairs new_pagination split_at
get_pagination_from_request query =
    let (page, per_page) = read_pairs (split_at 38 query) (pos 1, pos 25) in
    new_pagination page per_page
