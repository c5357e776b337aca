-- ===== src/Websocket/Router/Lists.antt =====
-- The lists of consumers that libs/shared/websocket/router.go keeps by topic.
use go_hft.Prelude.{
  ℕ, ◌+◌, ◌-◌, max, ◌≤◌, ◌<◌, ◌⊎◌, ◌≡◌, refl, ap, sym, subst, ◌∙◌, true, false, List, [], ◌∷◌, ◌++◌,
  ◌==◌, if◌then◌else◌, length, arith, Bool-cases, inl, inr,
}
use go_hft.Prelude.Maps.{
  lookup, lookup-insert, lookup-insert_other, lookup-delete, lookup-delete_other,
}
use go_hft.Websocket.Types.{TopicId}
use go_hft.Websocket.Manager.{last_of, all_but_last}
use go_hft.Websocket.Frames.Owners.{one, occurrences}
use go_hft.Websocket.Router.{
  Router, or_nil, consumers_of, has, add_consumer, swap_out, remove_consumer,
}

occurrences-last :
    (x q : ℕ) (ps : List ℕ)
    → one (last_of q ps) x + occurrences x (all_but_last (q ∷ ps)) ≡ occurrences x (q ∷ ps)
unfolding last_of all_but_last
occurrences-last x q [] = refl
occurrences-last x q (p ∷ ps) = let e = occurrences-last x p ps in omega arith

pub occurrences-moved :
    (x q : ℕ) (ps : List ℕ) → occurrences x (all_but_last (last_of q ps ∷ ps)) ≡ occurrences x ps
unfolding last_of all_but_last
occurrences-moved x q [] = refl
occurrences-moved x q (p ∷ ps) = occurrences-last x p ps

occurrences-swap_out :
    (x p : ℕ) (ps : List ℕ)
    → has ps p ≡ true
    → occurrences x (swap_out p ps) + one p x ≡ occurrences x ps
unfolding swap_out has
occurrences-swap_out x p [] h = cc
occurrences-swap_out x p (q ∷ ps) h = elim (Bool-cases (q == p)) [
  | inl e ↦
      let same : q ≡ p = ground arith in
      let same_one = ap (λ q. one q x) same in
      let m = occurrences-moved x q ps in rw (e) (omega arith)
  | inr e ↦ let rest = occurrences-swap_out x p ps (ground arith) in rw (e) (omega arith)
]

occurrences-missing : (p : ℕ) (ps : List ℕ) → has ps p ≡ false → occurrences p ps ≡ 0
unfolding has
occurrences-missing p [] h = refl
occurrences-missing p (q ∷ ps) h = elim (Bool-cases (q == p)) [
  | inl e ↦ ground arith
  | inr e ↦
      let rest = occurrences-missing p ps (ground arith) in
      let apart : one q p ≡ 0 = ground arith in omega arith
]

pub occurrences-snoc :
    (x p : ℕ) (ps : List ℕ) → occurrences x (ps ++ p ∷ []) ≡ occurrences x ps + one p x
occurrences-snoc x p [] = omega arith
occurrences-snoc x p (q ∷ ps) = let e = occurrences-snoc x p ps in omega arith

-- How often a consumer is in the list of a topic.
abbrev pub listed : TopicId → ℕ → Router → ℕ
listed topic x r = occurrences x (consumers_of topic r)

length-nil : (ps : List ℕ) → (length ps == 0) ≡ true → ps ≡ []
length-nil [] h = refl
length-nil (p ∷ ps) h = ground arith

add-consumers :
    (topic : TopicId) (p : ℕ) (r : Router)
    → consumers_of topic (add_consumer topic p r) ≡ (
        if has (consumers_of topic r) p
        then consumers_of topic r
        else consumers_of topic r ++ p ∷ [])
unfolding add_consumer consumers_of
add-consumers topic p r = elim (Bool-cases (has (or_nil (lookup r.topics topic)) p)) [
  | inl e ↦ rw (e) refl
  | inr e ↦ rw (e) (ap or_nil (lookup-insert r.topics topic _))
]

add-others :
    (topic other : TopicId) (p : ℕ) (r : Router)
    → (topic == other) ≡ false
    → consumers_of other (add_consumer topic p r) ≡ consumers_of other r
unfolding add_consumer consumers_of
add-others topic other p r h = elim (Bool-cases (has (or_nil (lookup r.topics topic)) p)) [
  | inl e ↦ rw (e) refl
  | inr e ↦ rw (e) (ap or_nil (lookup-insert_other r.topics topic other _ h))
]

remove-consumers :
    (topic : TopicId) (p : ℕ) (r : Router)
    → consumers_of topic (remove_consumer topic p r) ≡ (
        if has (consumers_of topic r) p
        then swap_out p (consumers_of topic r)
        else consumers_of topic r)
unfolding remove_consumer consumers_of
remove-consumers topic p r = elim (Bool-cases (has (or_nil (lookup r.topics topic)) p)) [
  | inr e ↦ rw (e) refl
  | inl e ↦ elim (Bool-cases (length (swap_out p (or_nil (lookup r.topics topic))) == 0)) [
    | inl z ↦ rw (e, z) (ap or_nil (lookup-delete r.topics topic) ∙ sym (length-nil _ z))
    | inr z ↦ rw (e, z) (ap or_nil (lookup-insert r.topics topic _))
  ]
]

remove-others :
    (topic other : TopicId) (p : ℕ) (r : Router)
    → (topic == other) ≡ false
    → consumers_of other (remove_consumer topic p r) ≡ consumers_of other r
unfolding remove_consumer consumers_of
remove-others topic other p r h = elim (Bool-cases (has (or_nil (lookup r.topics topic)) p)) [
  | inr e ↦ rw (e) refl
  | inl e ↦ elim (Bool-cases (length (swap_out p (or_nil (lookup r.topics topic))) == 0)) [
    | inl z ↦ rw (e, z) (ap or_nil (lookup-delete_other r.topics topic other h))
    | inr z ↦ rw (e, z) (ap or_nil (lookup-insert_other r.topics topic other _ h))
  ]
]

-- A consumer is in the list of each topic once at most.
abbrev pub IsListed : Router → Type 0
IsListed r = (topic : TopicId) (x : ℕ) → listed topic x r ≤ 1

-- Where a consumer is in a list.
has-occurrences : (p : ℕ) (ps : List ℕ) → has ps p ≡ true → 0 < occurrences p ps
has-occurrences p ps h =
    let e = occurrences-swap_out p p ps h in let self : one p p ≡ 1 = ground arith in omega arith

pub one-cases : (p x : ℕ) → ((p ≡ x) × (one p x ≡ 1)) ⊎ (one p x ≡ 0)
one-cases p x = elim (Bool-cases (p == x)) [
  | inl e ↦ inl (ground arith, ground arith)
  | inr e ↦ inr (ground arith)
]

add-listed :
    (topic : TopicId) (p x : ℕ) (r : Router)
    → IsListed r
    → listed topic x (add_consumer topic p r) ≡ max (listed topic x r) (one p x)
add-listed topic p x r h =
    let ps = consumers_of topic r in
    let e = ap (occurrences x) (add-consumers topic p r) in
    let at = h topic p in
    elim (Bool-cases (has ps p)) [
      | inl k ↦
          let there = has-occurrences p ps k in
          let same = ap (λ b. occurrences x (if b then ps else ps ++ p ∷ [])) k in
          elim (one-cases p x) [
            | inl (q, one_is) ↦ let swap = ap (λ y. occurrences y ps) q in omega arith
            | inr none_is ↦ omega arith
          ]
      | inr k ↦
          let missing = occurrences-missing p ps k in
          let same = ap (λ b. occurrences x (if b then ps else ps ++ p ∷ [])) k in
          let more = occurrences-snoc x p ps in
          elim (one-cases p x) [
            | inl (q, one_is) ↦ let swap = ap (λ y. occurrences y ps) q in omega arith
            | inr none_is ↦ omega arith
          ]
    ]

remove-listed :
    (topic : TopicId) (p x : ℕ) (r : Router)
    → listed topic x (remove_consumer topic p r) ≡ listed topic x r - one p x
remove-listed topic p x r =
    let ps = consumers_of topic r in
    let e = ap (occurrences x) (remove-consumers topic p r) in
    elim (Bool-cases (has ps p)) [
      | inl k ↦
          let out = occurrences-swap_out x p ps k in
          let same = ap (λ b. occurrences x (if b then swap_out p ps else ps)) k in omega arith
      | inr k ↦
          let missing = occurrences-missing p ps k in
          let same = ap (λ b. occurrences x (if b then swap_out p ps else ps)) k in
          elim (one-cases p x) [
            | inl (q, one_is) ↦ let swap = ap (λ y. occurrences y ps) q in omega arith
            | inr none_is ↦ omega arith
          ]
    ]

-- A change of one topic that keeps its list without repetition keeps all.
changed-IsListed :
    (topic : TopicId) (r r' : Router)
    → IsListed r
    → ((x : ℕ) → listed topic x r' ≤ 1)
    → ((other : TopicId) → (topic == other) ≡ false → consumers_of other r' ≡ consumers_of other r)
    → IsListed r'
changed-IsListed topic r r' h k same t x = elim (Bool-cases (topic == t)) [
  | inl e ↦ let q : topic ≡ t = ground arith in subst (λ t. listed t x r' ≤ 1) q (k x)
  | inr e ↦ let kept = ap (occurrences x) (same t e) in let at = h t x in omega arith
]

-- In a router whose lists hold each consumer once at most, adding a consumer to a topic puts it there
-- once, and removing it takes it out; the lists still hold each consumer once at most, every consumer
-- but that one is listed as often as before, and the other topics keep their lists.
pub router_lists :
    (topic other : TopicId) (p x : ℕ) (r : Router)
    → IsListed r
    → (topic == other) ≡ false
    → IsListed (add_consumer topic p r)
      × IsListed (remove_consumer topic p r)
      × (listed topic x (add_consumer topic p r) ≡ max (listed topic x r) (one p x))
      × (listed topic x (remove_consumer topic p r) ≡ listed topic x r - one p x)
      × (consumers_of other (add_consumer topic p r) ≡ consumers_of other r)
      × (consumers_of other (remove_consumer topic p r) ≡ consumers_of other r)
router_lists topic other p x r h k = (
  changed-IsListed topic r (add_consumer topic p r) h
      (λ y.
        let e = add-listed topic p y r h in
        let at = h topic y in
        elim (one-cases p y) [ inl (q, one_is) ↦ omega arith | inr none_is ↦ omega arith ])
      (λ t e. add-others topic t p r e),
  changed-IsListed topic r (remove_consumer topic p r) h
      (λ y. let e = remove-listed topic p y r in let at = h topic y in omega arith)
      (λ t e. remove-others topic t p r e),
  add-listed topic p x r h,
  remove-listed topic p x r,
  add-others topic other p r k,
  remove-others topic other p r k,
)
