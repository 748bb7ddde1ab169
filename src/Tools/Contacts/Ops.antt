-- ===== src/Tools/Contacts/Ops.antt =====
-- internal/usecase/eve/writes_contacts.go, `planContactSet` and `buildContactOps`: the calls that set
-- the standings of the contacts.
use eve_online_mcp.Prelude.{
  ℕ, ◌+◌, ◌≡◌, refl, sym, subst, Bool, true, false, not, ◌&&◌, List, [], ◌∷◌, ◌++◌, map, arith, All,
  any, count, count-append, filter, All-filter, Bool-cases, inl, inr, ◌==◌,
}
use eve_online_mcp.Esi.Lookup.{NameMatch}
use eve_online_mcp.Tools.Mail.{is_character}
use eve_online_mcp.Tools.Contacts.{
  ContactOp, ContactPlan, Verb, has, empty_plan, plan_one, plan_contact_set, op_of, ops_of,
  build_contact_ops,
}

-- The ids of some calls, one after the other.
abbrev pub ids_of_ops : List ContactOp → List ℕ
ids_of_ops [] = []
ids_of_ops (op ∷ ops) = op.ids ++ ids_of_ops ops

abbrev pub ids_of_matches : List NameMatch → List ℕ
ids_of_matches matches = map (λ (m : NameMatch). m.id) matches

abbrev pub is_update : Verb → Bool
is_update Verb.update = true
is_update Verb.add = false

-- A call updates contacts that are known and adds others, and watches only characters, and those
-- only if it was asked to.
pub record Fits (known : List ℕ) (matches : List NameMatch) (watched : Bool) (op : ContactOp)
    : Type 0 where
  pub known_ids : All (λ id. has known id ≡ is_update op.verb) op.ids
  pub watched_ids :
      op.watched ≡ true
      → (watched ≡ true)
        × All (λ id. any (λ (m : NameMatch). (m.id == id) && is_character m) matches ≡ true) op.ids

count-ids_of_ops-append :
    (q : ℕ → Bool) (xs ys : List ContactOp)
    → count q (ids_of_ops (xs ++ ys)) ≡ count q (ids_of_ops xs) + count q (ids_of_ops ys)
count-ids_of_ops-append q [] ys = ground arith
count-ids_of_ops-append q (op ∷ xs) ys = ground (
  arith,
  count-append q op.ids (ids_of_ops (xs ++ ys)),
  count-append q op.ids (ids_of_ops xs),
  count-ids_of_ops-append q xs ys,
)

count-op_of :
    (q : ℕ → Bool) (verb : Verb) (ids : List ℕ) (b : Bool)
    → count q (ids_of_ops (op_of verb ids b)) ≡ count q ids
unfolding op_of
count-op_of q verb [] b = refl
count-op_of q verb (id ∷ ids) b = ground (arith, count-append q ids [])

count-filter_split :
    (q p : ℕ → Bool) (xs : List ℕ)
    → count q (filter p xs) + count q (filter (λ x. not (p x)) xs) ≡ count q xs
count-filter_split q p [] = ground arith
count-filter_split q p (x ∷ xs) = ground (arith, count-filter_split q p xs)

count-ops_of :
    (q : ℕ → Bool) (verb : Verb) (ids : List ℕ) (watched : Bool) (watchable : List ℕ)
    → count q (ids_of_ops (ops_of verb ids watched watchable)) ≡ count q ids
unfolding ops_of
count-ops_of q verb ids true watchable =
    let chosen = filter (has watchable) ids in
    let others = filter (λ id. not (has watchable id)) ids in
    ground (
      arith,
      count-ids_of_ops-append q (op_of verb chosen true) (op_of verb others false),
      count-op_of q verb chosen true,
      count-op_of q verb others false,
      count-filter_split q (has watchable) ids,
    )
count-ops_of q verb ids false watchable = count-op_of q verb ids false

count-plan :
    (q : ℕ → Bool) (matches : List NameMatch) (known : List ℕ) (p : ContactPlan)
    → count q (plan_contact_set matches known p).updating
        + count q (plan_contact_set matches known p).neu
      ≡ (count q p.updating + count q p.neu) + count q (ids_of_matches matches)
unfolding plan_contact_set plan_one
count-plan q [] known p = ground arith
count-plan q (m ∷ matches) known p = elim (Bool-cases (has known m.id)) [
  | inl old ↦ ground (
    arith,
    old,
    count-plan q matches known (plan_one m known p),
    count-append q p.updating (m.id ∷ []),
  )
  | inr new ↦ ground (
    arith,
    new,
    count-plan q matches known (plan_one m known p),
    count-append q p.neu (m.id ∷ []),
  )
]

All-append {κ} : (P : ℕ → Type κ) (xs ys : List ℕ) → All P xs → All P ys → All P (xs ++ ys)
All-append P [] ys h k = k
All-append P (x ∷ xs) ys h k = (h.0, All-append P xs ys h.1 k)

AllOps-append :
    (P : ContactOp → Type 0) (xs ys : List ContactOp) → All P xs → All P ys → All P (xs ++ ys)
AllOps-append P [] ys h k = k
AllOps-append P (x ∷ xs) ys h k = (h.0, AllOps-append P xs ys h.1 k)

All-has : (P : ℕ → Type 0) (ids : List ℕ) (id : ℕ) → All P ids → has ids id ≡ true → P id
All-has P [] id h e = ground (arith, e)
All-has P (n ∷ ids) id h e = elim (Bool-cases (n == id)) [
  | inl same ↦ subst P (ground (arith, same)) h.0
  | inr other ↦ All-has P ids id h.1 (ground (arith, e, other))
]

plan-known :
    (matches : List NameMatch) (known : List ℕ) (p : ContactPlan)
    → All (λ id. has known id ≡ true) p.updating
    → All (λ id. has known id ≡ false) p.neu
    → All (λ id. has known id ≡ true) (plan_contact_set matches known p).updating
      × All (λ id. has known id ≡ false) (plan_contact_set matches known p).neu
unfolding plan_contact_set plan_one
plan-known [] known p u n = (u, n)
plan-known (m ∷ matches) known p u n = elim (Bool-cases (has known m.id)) [
  | inl old ↦
      plan-known matches known (plan_one m known p)
        (rw old (All-append (λ id. has known id ≡ true) p.updating (m.id ∷ []) u (old, tt)))
        (rw old n)
  | inr new ↦
      plan-known matches known (plan_one m known p) (rw new u)
        (rw new (All-append (λ id. has known id ≡ false) p.neu (m.id ∷ []) n (new, tt)))
]

plan-watchable :
    (W : ℕ → Type 0) (matches : List NameMatch) (known : List ℕ) (p : ContactPlan)
    → All W p.watchable
    → All (λ (m : NameMatch). is_character m ≡ true → W m.id) matches
    → All W (plan_contact_set matches known p).watchable
unfolding plan_contact_set plan_one
plan-watchable W [] known p h k = h
plan-watchable W (m ∷ matches) known p h k =
    elim (Bool-cases (is_character m && not (has p.watchable m.id))) [
      | inl fresh ↦
          plan-watchable W matches known (plan_one m known p)
            (rw fresh (k.0 (ground (arith, fresh)), h)) k.1
      | inr other ↦ plan-watchable W matches known (plan_one m known p) (rw other h) k.1
    ]

abbrev character_in : List NameMatch → ℕ → Bool
character_in matches id = any (λ (m : NameMatch). (m.id == id) && is_character m) matches

characters_in :
    (before matches : List NameMatch)
    → ((id : ℕ) → character_in matches id ≡ true → character_in before id ≡ true)
    → All (λ (m : NameMatch). is_character m ≡ true → character_in before m.id ≡ true) matches
characters_in before [] h = tt
characters_in before (m ∷ matches) h = (
  λ e. h m.id (ground (arith, e)),
  characters_in before matches (λ id e. h id (ground (arith, e))),
)

module _ (known : List ℕ) (matches : List NameMatch) (watched : Bool) where
  op_of-Fits :
      (verb : Verb) (ids : List ℕ) (b : Bool)
      → All (λ id. has known id ≡ is_update verb) ids
      → (b ≡ true → (watched ≡ true) × All (λ id. character_in matches id ≡ true) ids)
      → All (Fits known matches watched) (op_of verb ids b)
  unfolding op_of
  op_of-Fits verb [] b h k = tt
  op_of-Fits verb (id ∷ ids) b h k = (record { known_ids = h; watched_ids = k }, tt)

  filter-All :
      (P : ℕ → Type 0) (q : ℕ → Bool) (ids : List ℕ)
      → ((id : ℕ) → q id ≡ true → P id)
      → All P (filter q ids)
  filter-All P q [] h = tt
  filter-All P q (id ∷ ids) h = elim (Bool-cases (q id)) [
    | inl held ↦ rw held (h id held, filter-All P q ids h)
    | inr unmet ↦ rw unmet (filter-All P q ids h)
  ]

  ops_of-Fits :
      (verb : Verb) (ids : List ℕ) (b : Bool) (watchable : List ℕ)
      → b ≡ watched
      → All (λ id. has known id ≡ is_update verb) ids
      → All (λ id. character_in matches id ≡ true) watchable
      → All (Fits known matches watched) (ops_of verb ids b watchable)
  unfolding ops_of
  ops_of-Fits verb ids true watchable on h k =
      AllOps-append (Fits known matches watched) _ _
        (op_of-Fits verb (filter (has watchable) ids) true
          (All-filter (λ id. has known id ≡ is_update verb) (has watchable) ids h)
          (λ _. (
            sym on,
            filter-All (λ id. character_in matches id ≡ true) (has watchable) ids
                (λ id e. All-has (λ n. character_in matches n ≡ true) watchable id k e),
          )))
        (op_of-Fits verb (filter (λ id. not (has watchable id)) ids) false
          (All-filter (λ id. has known id ≡ is_update verb) (λ id. not (has watchable id)) ids h)
          (λ e. ground (arith, e)))
  ops_of-Fits verb ids false watchable off h k =
      op_of-Fits verb ids false h (λ e. ground (arith, e))

  -- Calls that name the matches as often as these come, and fit.
  pub record FitsAll (ops : List ContactOp) : Type 0 where
    pub each_once :
        (id : ℕ)
        → count (λ n. n == id) (ids_of_ops ops) ≡ count (λ n. n == id) (ids_of_matches matches)
    pub fitting : All (Fits known matches watched) ops

  -- The calls that set the standings of some matches name each of them as often as it was matched,
  -- update those that are contacts already and add the others, and watch only characters, and
  -- those only when it is asked for.
  pub build_contact_ops-Fits :
      (let plan = plan_contact_set matches known empty_plan in
        FitsAll (build_contact_ops plan.updating plan.neu watched plan.watchable))
  unfolding build_contact_ops
  build_contact_ops-Fits =
      let plan = plan_contact_set matches known empty_plan in
      let updates = ops_of Verb.update plan.updating watched plan.watchable in
      let adds = ops_of Verb.add plan.neu watched plan.watchable in
      let (old, new) = plan-known matches known empty_plan tt tt in
      let chars =
        plan-watchable (λ id. character_in matches id ≡ true) matches known empty_plan tt
          (characters_in matches matches (λ id e. e)) in
      record {
        each_once = λ id.
            let q = λ (n : ℕ). n == id in
            ground (
              arith,
              count-ids_of_ops-append q updates adds,
              count-ops_of q Verb.update plan.updating watched plan.watchable,
              count-ops_of q Verb.add plan.neu watched plan.watchable,
              count-plan q matches known empty_plan,
            );
        fitting =
            AllOps-append (Fits known matches watched) updates adds
              (ops_of-Fits Verb.update plan.updating watched plan.watchable refl old chars)
              (ops_of-Fits Verb.add plan.neu watched plan.watchable refl new chars);
      }
