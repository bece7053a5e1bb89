-- ===== src/Audience/Members.antt =====
-- The members that are set by hand, over those that the conditions of a segment choose.
use openjourney.Common.{
  ◌≡◌, refl, sym, ap, ◌∙◌, Bool, true, false, List, [], ◌∷◌, Option, none, some, String, ◌==◌,
  if◌then◌else◌, contains, inl, inr, Bool-cases,
}
use openjourney.Audience.Segment.{IdSet, ProfileKey, Member, with_member, with_members, all_ids}
use openjourney.Audience.Sets.{contains-put, contains-remove, ==-sound}

-- What one row says of a profile, and the last of the rows that says something.
abbrev said : Member → String → Option Bool
said m id =
    if m.profile_id == id
    then (if m.membership == "exclude"
        then some false
        else if m.membership == "include"
        then some true
        else none)
    else none

abbrev or_else : Option Bool → Option Bool → Option Bool
or_else (some b) other = some b
or_else none other = other

unfoldable pub last_word : List Member → String → Option Bool
last_word [] id = none
last_word (m ∷ ms) id = or_else (last_word ms id) (said m id)

abbrev pub decided : Option Bool → Bool → Bool
decided none b = b
decided (some b) other = b

decided-or_else : (a b : Option Bool) (c : Bool) → decided (or_else a b) c ≡ decided a (decided b c)
decided-or_else none b c = refl
decided-or_else (some a) b c = refl

contains-with_member :
    (profiles : List ProfileKey) (m : Member) (ids : IdSet) (id : String)
    → contains (all_ids profiles) id ≡ true
    → contains (with_member profiles m ids) id ≡ decided (said m id) (contains ids id)
unfolding with_member
contains-with_member profiles m ids id known = elim (Bool-cases (m.profile_id == id)) [
  | inl own ↦
      let e : m.profile_id ≡ id = ==-sound m.profile_id id own in
      let k : contains (all_ids profiles) m.profile_id ≡ true = rw (e, known) in
      elim (Bool-cases (m.membership == "exclude")) [
        | inl out ↦ rw (own, k, out, contains-remove m.profile_id id ids, own)
        | inr stays ↦ elim (Bool-cases (m.membership == "include")) [
          | inl add ↦ rw (own, k, stays, add, contains-put m.profile_id id ids, own)
          | inr other ↦ rw (own, k, stays, other)
        ]
      ]
  | inr apart ↦ elim (Bool-cases (contains (all_ids profiles) m.profile_id)) [
    | inr unknown ↦ rw (apart, unknown)
    | inl k ↦ elim (Bool-cases (m.membership == "exclude")) [
      | inl out ↦ rw (apart, k, out, contains-remove m.profile_id id ids, apart)
      | inr stays ↦ elim (Bool-cases (m.membership == "include")) [
        | inl add ↦ rw (apart, k, stays, add, contains-put m.profile_id id ids, apart)
        | inr other ↦ rw (apart, k, stays, other)
      ]
    ]
  ]
]

-- For a profile of the workspace, the last of a segment's rows that includes or excludes the profile
-- decides if it is in the segment; where no row does, the conditions decide.
pub contains-with_members :
    (profiles : List ProfileKey) (ms : List Member) (ids : IdSet) (id : String)
    → contains (all_ids profiles) id ≡ true
    → contains (with_members profiles ms ids) id ≡ decided (last_word ms id) (contains ids id)
unfolding with_members last_word
contains-with_members profiles [] ids id known = refl
contains-with_members profiles (m ∷ ms) ids id known =
    contains-with_members profiles ms (with_member profiles m ids) id known
    ∙ ap (decided (last_word ms id)) (contains-with_member profiles m ids id known)
    ∙ sym (decided-or_else (last_word ms id) (said m id) (contains ids id))
