-- ===== src/Acl/Any.antt =====
-- internal/acl/domain_evaluator.go and user_resolver.go: the Go values behind an `any`, which come
-- from JSON or from the domain, and the map of an Odoo record. A Go map is a list of its entries in
-- the order of the keys, which is the order that `%v` prints.
use intelligent_odoo_dev_too.Prelude.{
  ℕ, zero, suc, ◌+◌, ◌/◌, ◌%◌, Bool, true, false, Option, none, some, List, [], ◌∷◌, ◌++◌, ltb,
  if◌then◌else◌,
}
use intelligent_odoo_dev_too.Prelude.Int.{ℤ, pos, negsuc}
use intelligent_odoo_dev_too.Prelude.Text.{Bytes, codes, eqb}
use intelligent_odoo_dev_too.Acl.Host.{Host}

mutual
  pub data Any (F G : Type 0) : Type 0 where
    nil_any : Any F G
    bool_any : Bool → Any F G
    int_any : ℤ → Any F G
    int64_any : ℤ → Any F G
    float64_any : F → Any F G
    float32_any : G → Any F G
    string_any : Bytes → Any F G
    slice_any : Anys F G → Any F G
    ints_any : List ℤ → Any F G
    int64s_any : List ℤ → Any F G
    float64s_any : List F → Any F G
    strings_any : List Bytes → Any F G
    map_any : Entries F G → Any F G

  pub data Anys (F G : Type 0) : Type 0 where
    no_anys : Anys F G
    any : Any F G → Anys F G → Anys F G

  pub data Entries (F G : Type 0) : Type 0 where
    no_entries : Entries F G
    entry : Bytes → Any F G → Entries F G → Entries F G

-- `map[string]any`, and `m[key]`.
unfoldable pub lookup_any : {F G : Type 0} → Bytes → Entries F G → Option (Any F G)
lookup_any key no_entries = none
lookup_any key (entry k v m) = let rest = lookup_any key m in if eqb k key then some v else rest

-- `%v` of an integer: decimal digits. A number has fewer digits than units of fuel `n + 1`.
pub decimal_digits : ℕ → ℕ → Bytes
decimal_digits zero n = []
decimal_digits (suc fuel) n =
    let more = decimal_digits fuel (n / 10) ++ ((b'0' + n % 10) ∷ []) in
    if ltb n 10 then (b'0' + n) ∷ [] else more

unfoldable pub decimal : ℤ → Bytes
unfolding decimal_digits
decimal (pos n) = decimal_digits (n + 1) n
decimal (negsuc n) = b'-' ∷ decimal_digits (n + 2) (n + 1)

-- The items of a slice, separated by spaces.
pub spaced {ℓ} : {A : Type ℓ} → (A → Bytes) → List A → Bytes
spaced print [] = []
spaced print (x ∷ []) = print x
spaced print (x ∷ y ∷ xs) = print x ++ (b' ' ∷ spaced print (y ∷ xs))

abbrev bracketed : Bytes → Bytes
bracketed s = b'[' ∷ (s ++ (b']' ∷ []))

module _ (h : Host) where
  open h use {Float64, Float32, print64, print32}

  -- `fmt.Sprintf("%v", v)`.
  unfoldable mutual
    unfolding decimal spaced

    pub sprint_v : Any Float64 Float32 → Bytes
    sprint_v nil_any = codes "<nil>"
    sprint_v (bool_any true) = codes "true"
    sprint_v (bool_any false) = codes "false"
    sprint_v (int_any n) = decimal n
    sprint_v (int64_any n) = decimal n
    sprint_v (float64_any f) = print64 f
    sprint_v (float32_any f) = print32 f
    sprint_v (string_any s) = s
    sprint_v (slice_any vs) = bracketed (sprint_items vs)
    sprint_v (ints_any ns) = bracketed (spaced decimal ns)
    sprint_v (int64s_any ns) = bracketed (spaced decimal ns)
    sprint_v (float64s_any fs) = bracketed (spaced print64 fs)
    sprint_v (strings_any ss) = bracketed (spaced (λ s. s) ss)
    sprint_v (map_any m) = codes "map" ++ bracketed (sprint_entries m)

    pub sprint_items : Anys Float64 Float32 → Bytes
    sprint_items no_anys = []
    sprint_items (any v no_anys) = sprint_v v
    sprint_items (any v (any w vs)) = sprint_v v ++ (b' ' ∷ sprint_items (any w vs))

    pub sprint_entries : Entries Float64 Float32 → Bytes
    sprint_entries no_entries = []
    sprint_entries (entry k v no_entries) = k ++ (b':' ∷ sprint_v v)
    sprint_entries (entry k v (entry j w m)) =
        k ++ (b':' ∷ (sprint_v v ++ (b' ' ∷ sprint_entries (entry j w m))))
