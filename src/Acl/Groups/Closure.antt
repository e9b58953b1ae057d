-- ===== src/Acl/Groups/Closure.antt =====
-- internal/acl/group_resolver.go: the effective groups are the groups that can be reached.
use intelligent_odoo_dev_too.Prelude.{
  ℕ, zero, suc, ◌+◌, ◌≤◌, ◌≡◌, ◌↔◌, ◌⊎◌, refl, sym, ap, true, false, not, ◌&&◌, ◌||◌, some, List,
  [], ◌∷◌, ◌++◌, if◌then◌else◌, count_if, length, length-append, arith, Bool-cases, inl, inr,
}
use intelligent_odoo_dev_too.Prelude.Int.{ℤ, eqb_ℤ, eqb_ℤ_iff, eqb_ℤ_refl}
use intelligent_odoo_dev_too.Acl.Types.{mem_ℤ}
use intelligent_odoo_dev_too.Acl.Groups.{
  GroupMap, lookup_group, implied_of, add_implied, expand, all_implied, effective_set,
}

-- A group is reached from the direct groups along `implied_ids`.
pub data Reachable (groups : GroupMap) (direct : List ℤ) : ℤ → Type 0 where
  direct_group : {id : ℤ} → mem_ℤ id direct ≡ true → Reachable groups direct id
  implied_group :
      {a b : ℤ}
      → Reachable groups direct a
      → mem_ℤ b (implied_of groups a) ≡ true
      → Reachable groups direct b

mem_ℤ-append : (x : ℤ) (xs ys : List ℤ) → mem_ℤ x (xs ++ ys) ≡ (mem_ℤ x xs || mem_ℤ x ys)
mem_ℤ-append x [] ys = refl
mem_ℤ-append x (y ∷ xs) ys = ground (arith, mem_ℤ-append x xs ys)

mem_ℤ_congr : (x y : ℤ) (xs : List ℤ) → eqb_ℤ x y ≡ true → mem_ℤ x xs ≡ mem_ℤ y xs
mem_ℤ_congr x y xs e = ap (λ z. mem_ℤ z xs) ((eqb_ℤ_iff x y).0 e)

-- Adding one id to the set, when it is not there.
abbrev put : ℤ → List ℤ → List ℤ → List ℤ
put id set xs = if mem_ℤ id set then xs else xs ++ (id ∷ [])

mem_ℤ-put : (x id : ℤ) (set : List ℤ) → mem_ℤ x (put id set set) ≡ (mem_ℤ x set || eqb_ℤ x id)
mem_ℤ-put x id set = ground (arith, mem_ℤ-append x set (id ∷ []), mem_ℤ_congr x id set)

mem_ℤ-put_queue :
    (x id : ℤ) (set queue : List ℤ)
    → mem_ℤ x (put id set queue) ≡ (mem_ℤ x queue || (eqb_ℤ x id && not (mem_ℤ id set)))
mem_ℤ-put_queue x id set queue = ground (arith, mem_ℤ-append x queue (id ∷ []))

set-add_implied :
    (x : ℤ) (ids set queue : List ℤ)
    → mem_ℤ x (add_implied ids set queue).0 ≡ (mem_ℤ x set || mem_ℤ x ids)
unfolding add_implied
set-add_implied x [] set queue = ground arith
set-add_implied x (id ∷ ids) set queue =
    ground (arith, set-add_implied x ids (put id set set) (put id set queue), mem_ℤ-put x id set)

queue-add_implied :
    (x : ℤ) (ids set queue : List ℤ)
    → mem_ℤ x (add_implied ids set queue).1 ≡ (mem_ℤ x queue || (mem_ℤ x ids && not (mem_ℤ x set)))
unfolding add_implied
queue-add_implied x [] set queue = ground arith
queue-add_implied x (id ∷ ids) set queue = ground (
  arith,
  queue-add_implied x ids (put id set set) (put id set queue),
  mem_ℤ-put x id set,
  mem_ℤ-put_queue x id set queue,
  mem_ℤ_congr x id set,
)

-- The ids of `ids` that are not in the set yet.
abbrev fresh : List ℤ → List ℤ → ℕ
fresh set ids = count_if (λ id. not (mem_ℤ id set)) ids

fresh-snoc_le : (id : ℤ) (set ids : List ℤ) → fresh (set ++ (id ∷ [])) ids ≤ fresh set ids
fresh-snoc_le id set [] = omega arith
fresh-snoc_le id set (k ∷ ids) =
    ground (arith, fresh-snoc_le id set ids, mem_ℤ-append k set (id ∷ []))

fresh-snoc_lt :
    (id : ℤ) (set ids : List ℤ)
    → mem_ℤ id ids ≡ true
    → mem_ℤ id set ≡ false
    → fresh (set ++ (id ∷ [])) ids + 1 ≤ fresh set ids
fresh-snoc_lt id set [] e n = cc
fresh-snoc_lt id set (k ∷ ids) e n = elim (Bool-cases (eqb_ℤ id k)) [
  | inl same ↦
      let k_is_id : k ≡ id = sym ((eqb_ℤ_iff id k).0 same) in
      ground (
        arith,
        fresh-snoc_le id set ids,
        mem_ℤ-append k set (id ∷ []),
        ap (λ z. mem_ℤ z set) k_is_id,
        eqb_ℤ_refl id,
        ap (λ z. eqb_ℤ z id) k_is_id,
      )
  | inr other ↦
      ground
        (arith, fresh-snoc_lt id set ids, fresh-snoc_le id set ids, mem_ℤ-append k set (id ∷ []))
]

put-measure :
    (id : ℤ) (set queue ids : List ℤ)
    → mem_ℤ id ids ≡ true
    → length (put id set queue) + fresh (put id set set) ids ≤ length queue + fresh set ids
put-measure id set queue ids e =
    ground (arith, fresh-snoc_lt id set ids, length-append queue (id ∷ []))

add_implied-measure :
    (ids set queue all : List ℤ)
    → ((x : ℤ) → mem_ℤ x ids ≡ true → mem_ℤ x all ≡ true)
    → length (add_implied ids set queue).1 + fresh (add_implied ids set queue).0 all
      ≤ length queue + fresh set all
unfolding add_implied
add_implied-measure [] set queue all h = omega arith
add_implied-measure (id ∷ ids) set queue all h =
    let first : mem_ℤ id all ≡ true = h id (ground (arith, eqb_ℤ_refl id)) in
    let rest : (x : ℤ) → mem_ℤ x ids ≡ true → mem_ℤ x all ≡ true = λ x e. h x (ground arith) in
    omega (
      arith,
      add_implied-measure ids (put id set set) (put id set queue) all rest,
      put-measure id set queue all first,
    )

implied_of-all_implied :
    (groups : GroupMap) (a x : ℤ)
    → mem_ℤ x (implied_of groups a) ≡ true
    → mem_ℤ x (all_implied groups) ≡ true
unfolding implied_of lookup_group all_implied
implied_of-all_implied [] a x e = cc
implied_of-all_implied ((k, g) ∷ groups) a x e =
    ground
      (arith, implied_of-all_implied groups a x, mem_ℤ-append x g.implied_ids (all_implied groups))

module _ (groups : GroupMap) (direct : List ℤ) where
  -- What holds before each round of the loop.
  record IsExpanding (set queue : List ℤ) : Type 0 where
    starts : (x : ℤ) → mem_ℤ x direct ≡ true → mem_ℤ x set ≡ true
    queued : (x : ℤ) → mem_ℤ x queue ≡ true → mem_ℤ x set ≡ true
    sound : (x : ℤ) → mem_ℤ x set ≡ true → Reachable groups direct x
    closed :
        (a : ℤ)
        → mem_ℤ a set ≡ true
        → (mem_ℤ a queue ≡ true)
          ⊎ ((b : ℤ) → mem_ℤ b (implied_of groups a) ≡ true → mem_ℤ b set ≡ true)

  round-IsExpanding :
      (current : ℤ) (set queue : List ℤ)
      → IsExpanding set (current ∷ queue)
      → IsExpanding
          (add_implied (implied_of groups current) set queue).0
          (add_implied (implied_of groups current) set queue).1
  round-IsExpanding current set queue v = record {
    starts = λ x e. ground (arith, v.starts x e, set-add_implied x ids set queue);
    queued = λ x e.
        ground
          (arith, v.queued x, set-add_implied x ids set queue, queue-add_implied x ids set queue);
    sound = λ x e. elim (Bool-cases (mem_ℤ x set)) [
      | inl old ↦ v.sound x old
      | inr new ↦
          let implied : mem_ℤ x ids ≡ true = ground (arith, set-add_implied x ids set queue) in
          implied_group (v.sound current (v.queued current (ground (arith, eqb_ℤ_refl current))))
            implied
    ];
    closed = λ a e. elim (Bool-cases (mem_ℤ a set)) [
      | inl old ↦ old_closed a (v.closed a old)
      | inr new ↦
          inl (ground (arith, set-add_implied a ids set queue, queue-add_implied a ids set queue))
    ];
  }
    where
      ids : List ℤ
      ids = implied_of groups current

      old_closed :
          (a : ℤ)
          → (mem_ℤ a (current ∷ queue) ≡ true)
            ⊎ ((b : ℤ) → mem_ℤ b (implied_of groups a) ≡ true → mem_ℤ b set ≡ true)
          → (mem_ℤ a (add_implied ids set queue).1 ≡ true)
            ⊎ ((b : ℤ)
                → mem_ℤ b (implied_of groups a) ≡ true
                → mem_ℤ b (add_implied ids set queue).0 ≡ true)
      old_closed a (inr done) =
          inr (λ b e. ground (arith, done b e, set-add_implied b ids set queue))
      old_closed a (inl waits) = elim (Bool-cases (eqb_ℤ a current)) [
        | inl same ↦
            let is_current : a ≡ current = (eqb_ℤ_iff a current).0 same in
            inr (λ b e. ground (
              arith,
              ap (λ z. mem_ℤ b (implied_of groups z)) is_current,
              set-add_implied b ids set queue,
            ))
        | inr other ↦ inl (ground (arith, queue-add_implied a ids set queue))
      ]

  expand-IsExpanding :
      (fuel : ℕ) (set queue : List ℤ)
      → IsExpanding set queue
      → length queue + fresh set (all_implied groups) ≤ fuel
      → (out : List ℤ) × (expand fuel groups set queue ≡ some out) × IsExpanding out []
  unfolding expand
  expand-IsExpanding fuel set [] v h = (set, ground arith, v)
  expand-IsExpanding zero set (current ∷ queue) v h = absurd (omega arith)
  expand-IsExpanding (suc fuel) set (current ∷ queue) v h =
      let ids = implied_of groups current in
      expand-IsExpanding fuel (add_implied ids set queue).0 (add_implied ids set queue).1
        (round-IsExpanding current set queue v)
        (omega (
          arith,
          add_implied-measure ids set queue (all_implied groups)
              (implied_of-all_implied groups current),
        ))

  Reachable-out :
      (out : List ℤ)
      → IsExpanding out []
      → (id : ℤ) → Reachable groups direct id
      → mem_ℤ id out ≡ true
  Reachable-out out v id (direct_group e) = v.starts id e
  Reachable-out out v id (implied_group {a} {b} r e) = elim (v.closed a (Reachable-out out v a r)) [
    | inl waits ↦ cc
    | inr done ↦ done b e
  ]

fresh-le-length : (set ids : List ℤ) → fresh set ids ≤ length ids
fresh-le-length set [] = omega arith
fresh-le-length set (k ∷ ids) = ground (arith, fresh-le-length set ids)

-- For all group records, also when they imply each other in a cycle, the expansion of the direct
-- groups ends within the model's fuel, and a group is in the effective set exactly when it is a
-- direct group or implied, through any number of groups, by one.
pub effective_set_iff :
    (groups : GroupMap) (direct : List ℤ)
    → (out : List ℤ) × (effective_set groups direct ≡ some out)
      × ((id : ℤ) → (mem_ℤ id out ≡ true) ↔ Reachable groups direct id)
unfolding effective_set
effective_set_iff groups direct =
    let start : IsExpanding groups direct direct direct = record {
      starts = λ x e. e;
      queued = λ x e. e;
      sound = λ x e. direct_group e;
      closed = λ a e. inl e;
    } in
    let (out, ended, v) =
      expand-IsExpanding groups direct (length direct + length (all_implied groups)) direct direct
        start (omega (arith, fresh-le-length direct (all_implied groups))) in
    (out, ended, λ id. (v.sound id, Reachable-out groups direct out v id))
