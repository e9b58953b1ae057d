-- ===== src/Examples/Pagination.antt =====
-- internal/dto/pagination_dto.go on the second page of 45 entries, and on a page number beyond use.
use intelligent_odoo_dev_too.Prelude.{ℕ, ◌*◌, ◌≤◌, ◌<◌, ◌≡◌, ◌↔◌, refl, true, some, arith}
use intelligent_odoo_dev_too.Prelude.Int.{pos, ltb_ℤ, wrap, add64, ◌+ℤ◌}
use intelligent_odoo_dev_too.Prelude.Text.{codes, cut, split_at}
use intelligent_odoo_dev_too.Pagination.{
  Meta, new_pagination, to_meta, offset, mul64, get_pagination_from_request, parse_from, parse_int,
  or_parsed, read_pair, read_pairs,
}
use intelligent_odoo_dev_too.Pagination.Pages.{to_meta_iff}

to_meta_iff_example :
    (a : ℕ) × (k : ℕ) × (m : Meta) × ((new_pagination (pos 2) (pos 0)).page ≡ pos a)
    × ((new_pagination (pos 2) (pos 0)).per_page ≡ pos k)
    × (0 < a)
    × (0 < k)
    × (k ≤ 100)
    × (to_meta (record (new_pagination (pos 2) (pos 0)) { total = pos 45 }) ≡ some m)
    × ((m.has_next ≡ true) ↔ (a * k < 45))
to_meta_iff_example = to_meta_iff (pos 2) (pos 0) 45 (omega arith)

offset_test : offset (get_pagination_from_request (codes "page=3&per_page=500")) ≡ pos 200
unfolding get_pagination_from_request read_pairs read_pair or_parsed parse_int parse_from cut
    split_at new_pagination offset mul64 add64 wrap ◌+ℤ◌
offset_test = refl

offset-overflow_test :
    ltb_ℤ (offset (new_pagination (pos 92233720368547760) (pos 100))) (pos 0) ≡ true
unfolding new_pagination offset mul64 add64 wrap ◌+ℤ◌
offset-overflow_test = refl
