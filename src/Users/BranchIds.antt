-- ===== src/Users/BranchIds.antt =====
-- users.service.ts: the lists of branches of a request, cleaned and counted.
use node_vms.Prelude.{
  ℕ, ◌+◌, ◌≤◌, ◌≡◌, ◌≢◌, ◌↔◌, refl, subst, sym, ◌∙◌, ◌⊎◌, inl, inr, Bool, true, false, ◌&&◌, not,
  none, List, [], ◌∷◌, All, All-mono, Listed, length, filter_by, total_of, total_of_none, sum_of,
  Keyed, ◌==◌, is_none, Bool-cases, truthy, arith,
}
use mathlib.Core.List.{Memᴰ}
use node_vms.Schema.{Branch}
use node_vms.Database.Client.{Client}
use node_vms.Database.Errors.{ok}
use node_vms.Database.Action.{Db}
use node_vms.Database.Aggregates.{Aggregates}
use node_vms.Auth.Crypto.{Bcrypt}
use node_vms.Users.{assert_branches_exist, normalize_branch_ids}
use node_vms.Users.Requests.{distinct_ids, one_of, counted}

-- No id stands twice.
abbrev pub Apart : List ℕ → Type 0
Apart ids = Keyed (λ i. i) ids

All-filter_by : (P : ℕ → Type 0) (p : ℕ → Bool) (xs : List ℕ) → All P xs → All P (filter_by p xs)
All-filter_by P p [] h = tt
All-filter_by P p (x ∷ xs) (q, h) = elim (Bool-cases (p x)) [
  | inl e ↦ rw e (q, All-filter_by P p xs h)
  | inr e ↦ rw e (All-filter_by P p xs h)
]

filter_by-Apart : (p : ℕ → Bool) (xs : List ℕ) → Apart xs → Apart (filter_by p xs)
filter_by-Apart p [] h = tt
filter_by-Apart p (x ∷ xs) (f, h) = elim (Bool-cases (p x)) [
  | inl e ↦ rw e (All-filter_by (λ y. y ≢ x) p xs f, filter_by-Apart p xs h)
  | inr e ↦ rw e (filter_by-Apart p xs h)
]

without : (x : ℕ) (xs : List ℕ) → All (λ y. y ≢ x) (filter_by (λ y. not (y == x)) xs)
without x [] = tt
without x (y ∷ ys) = elim (Bool-cases (y == x)) [
  | inl e ↦ rw e (without x ys)
  | inr e ↦ rw e ((λ g. ground arith), without x ys)
]

pub distinct_ids-Apart : (ids : List ℕ) → Apart (distinct_ids ids)
distinct_ids-Apart [] = tt
distinct_ids-Apart (x ∷ xs) = (
  without x (distinct_ids xs),
  filter_by-Apart (λ y. not (y == x)) (distinct_ids xs) (distinct_ids-Apart xs),
)

-- The tenant has the branch, and it is not deleted.
abbrev pub HasBranch : ℕ → List Branch → ℕ → Type 0
HasBranch tenant_id t i =
    (b : Branch) × Listed b t × (b.id ≡ i) × (b.tenant_id ≡ tenant_id) × (b.deleted_at ≡ none)

module _ (tenant_id : ℕ) where
  -- The live branches with one id.
  abbrev is_id : ℕ → Branch → Bool
  is_id i b = b.tenant_id == tenant_id && (is_none b.deleted_at && b.id == i)

  abbrev hits : ℕ → List Branch → ℕ
  hits i t = total_of (λ _. 1) (is_id i) t

  no_hit :
      (i : ℕ) (b : Branch) (t : List Branch) → All (λ y. y.id ≢ b.id) t → b.id ≡ i → hits i t ≡ 0
  no_hit i b t f e = total_of_none (λ _. 1) (is_id i) t (All-mono _ _ t (λ y ne. ground arith) f)

  hits-le : (i : ℕ) (t : List Branch) → Keyed (λ b. b.id) t → hits i t ≤ 1
  hits-le i [] k = omega arith
  hits-le i (b ∷ t) (f, k) = elim (Bool-cases (b.id == i)) [
    | inl e ↦ let rest = no_hit i b t f (ground arith) in ground arith
    | inr e ↦ ground (arith, hits-le i t k)
  ]

  hits_found : (i : ℕ) (t : List Branch) → (hits i t ≡ 0) ⊎ HasBranch tenant_id t i
  hits_found i [] = inl refl
  hits_found i (b ∷ t) = elim (Bool-cases (is_id i b)) [
    | inl e ↦ inr (b, Memᴰ.head refl, ground arith, ground arith, ground arith)
    | inr e ↦ elim (hits_found i t) [
      | inl g ↦ inl (ground arith)
      | inr (x, m, h, o, l) ↦ inr (x, Memᴰ.tail m, h, o, l)
    ]
  ]

  hits_one : (i : ℕ) (t : List Branch) → HasBranch tenant_id t i → 1 ≤ hits i t
  hits_one i [] (b, m, e, own, live) = elim m [ ]
  hits_one i (x ∷ t) (b, Memᴰ.head g, e, own, live) =
      let hit : is_id i x ≡ true = subst (λ y. is_id i y ≡ true) g (ground arith) in ground arith
  hits_one i (x ∷ t) (b, Memᴰ.tail m, e, own, live) =
      let rest = hits_one i t (b, m, e, own, live) in ground arith

  abbrev found : List ℕ → List Branch → ℕ
  found ids t = total_of (λ _. 1) (counted tenant_id ids) t

  one_of-false : (x : ℕ) (xs : List ℕ) → All (λ y. y ≢ x) xs → one_of xs x ≡ false
  one_of-false x [] h = refl
  one_of-false x (y ∷ ys) (ne, h) = ground (arith, one_of-false x ys h)

  found-cons :
      (x : ℕ) (xs : List ℕ) (t : List Branch)
      → All (λ y. y ≢ x) xs
      → found (x ∷ xs) t ≡ hits x t + found xs t
  found-cons x xs [] h = refl
  found-cons x xs (b ∷ t) h = elim (Bool-cases (x == b.id)) [
    | inl e ↦
        let same : x ≡ b.id = ground arith in
        let other : one_of xs b.id ≡ false = rw same at (one_of-false x xs h) in
        ground (arith, found-cons x xs t h)
    | inr e ↦ ground (arith, found-cons x xs t h)
  ]

  found-nil : (t : List Branch) → found [] t ≡ 0
  found-nil [] = refl
  found-nil (b ∷ t) = ground (arith, found-nil t)

  found-le :
      (ids : List ℕ) (t : List Branch) → Keyed (λ b. b.id) t → Apart ids → found ids t ≤ length ids
  found-le [] t k a = omega (arith, found-nil t)
  found-le (x ∷ xs) t k (f, a) =
      omega (arith, found-cons x xs t f, hits-le x t k, found-le xs t k a)

  found_all :
      (ids : List ℕ) (t : List Branch)
      → Keyed (λ b. b.id) t
      → Apart ids
      → found ids t ≡ length ids
      → All (HasBranch tenant_id t) ids
  found_all [] t k a e = tt
  found_all (x ∷ xs) t k (f, a) e =
      let split = found-cons x xs t f in
      let at_most = hits-le x t k in
      let rest = found-le xs t k a in
      (
        elim (hits_found x t) [ inl z ↦ absurd (omega arith) | inr h ↦ h ],
        found_all xs t k a (omega arith),
      )

  all_found :
      (ids : List ℕ) (t : List Branch)
      → Keyed (λ b. b.id) t
      → Apart ids
      → All (HasBranch tenant_id t) ids
      → found ids t ≡ length ids
  all_found [] t k a h = found-nil t
  all_found (x ∷ xs) t k (f, a) (q, h) =
      omega (arith, found-cons x xs t f, hits-le x t k, hits_one x t q, all_found xs t k a h)

module _ (c : Client) (a : Aggregates c) (tenant_id : ℕ) (ids : List ℕ) (s : Db) where
  length-sum_of : {A : Type 0} (xs : List A) → length xs ≡ sum_of (λ _. 1) xs
  length-sum_of [] = refl
  length-sum_of (x ∷ xs) = omega (arith, length-sum_of xs)

  counted_rows :
      length (c.find_many (counted tenant_id ids) s.branches) ≡ found tenant_id ids s.branches
  counted_rows =
      length-sum_of (c.find_many (counted tenant_id ids) s.branches)
      ∙ a.find_many_sum (λ _. 1) (counted tenant_id ids) s.branches

module _ (c : Client) (a : Aggregates c) (b : Bcrypt) (blank : ℕ → Bool) (tenant_id : ℕ)
    (s : Db) where
  assert_iff_count :
      (ids : List ℕ)
      → (assert_branches_exist c b blank tenant_id ids s ≡ (ok tt, s))
        ↔ (length (c.find_many (counted tenant_id ids) s.branches) ≡ length ids)
  unfolding assert_branches_exist
  assert_iff_count [] = (
    λ e. omega (arith, counted_rows c a tenant_id [] s, found-nil tenant_id s.branches),
    λ e. refl,
  )
  assert_iff_count (x ∷ xs) =
      elim (Bool-cases
        (length (c.find_many (counted tenant_id (x ∷ xs)) s.branches) == length (x ∷ xs))) [
          | inl e ↦ (λ g. ground arith, λ g. ground arith)
          | inr e ↦ (λ g. ground arith, λ g. ground arith)
        ]

  -- With ids of branches unique, the check of a list of branches passes exactly when every branch of
  -- the list is one of the tenant's and not deleted, whatever the request's list, once it has been
  -- cleaned: the service only counts, and the cleaning leaves no id twice.
  pub assert_branches_exist_iff :
      (requested : List ℕ)
      → Keyed (λ r. r.id) s.branches
      → (assert_branches_exist c b blank tenant_id (normalize_branch_ids c b blank requested) s
          ≡ (ok tt, s))
        ↔ All (HasBranch tenant_id s.branches) (normalize_branch_ids c b blank requested)
  assert_branches_exist_iff requested k =
      let ids = normalize_branch_ids c b blank requested in
      let apart = distinct_ids-Apart (filter_by (λ id. truthy id && not (blank id)) requested) in
      let count = counted_rows c a tenant_id ids s in
      (
        λ e. found_all tenant_id ids s.branches k apart (sym count ∙ (assert_iff_count ids).0 e),
        λ h. (assert_iff_count ids).1 (count ∙ all_found tenant_id ids s.branches k apart h),
      )
