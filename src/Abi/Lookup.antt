-- ===== src/Abi/Lookup.antt =====
-- `SiteAnnounceTable` of include/sub0log/abi_host.hpp: what is recorded is found, and nothing else
-- changes.
use mathlib.Core.Path.{subst}
use sub0log.Common.{
  ℕ, zero, suc, ◌+◌, ◌%◌, ◌^◌, Option-cases, ◌≡◌, ◌≢◌, refl, sym, ap, ◌∙◌, arith, true, false, ◌||◌,
  Option, none, some, ◌==◌, ==_iff, ==_refl, if◌then◌else◌, Bool-cases, inl, inr, ◌⊎◌,
}
use sub0log.Abi.{
  SiteSlot, Table, set_slot, following_slot, probe_start, probe_limit, find_from, generation_for,
  or_exhausted, record_from, record_site,
}

-- A search that was not decided is answered with 0.
abbrev pub answer : Option ℕ → ℕ
answer none = 0
answer (some generation) = generation

-- No slot of the next ones has the site.
abbrev pub Absent : ℕ → ℕ → ℕ → Table → Type 0
Absent zero slot id t = Unit
Absent (suc n) slot id t = ((t slot).site_id ≢ id) × Absent n (following_slot slot) id t

-- Behind an empty slot the site is not.
abbrev pub Packed : ℕ → ℕ → ℕ → Table → Type 0
Packed zero slot id t = Unit
Packed (suc n) slot id t =
    ((t slot).site_id ≡ id)
    ⊎ (Absent n (following_slot slot) id t
        ⊎ (((t slot).site_id ≢ 0) × Packed n (following_slot slot) id t))

-- `t'` is `t` with one slot that was empty or the site's own given to the site.
abbrev pub Changed : Table → Table → ℕ → ℕ → Type 0
Changed t t' id generation =
    (i : ℕ)
    → (t' i ≡ t i)
      ⊎ ((t' i ≡ record { site_id = id; generation = generation })
          × (((t i).site_id ≡ 0) ⊎ ((t i).site_id ≡ id)))

free_or_own : (key id : ℕ) → ((key == 0) || (key == id)) ≡ true → (key ≡ 0) ⊎ (key ≡ id)
free_or_own key id h = ground arith

taken_by_other : (key id : ℕ) → ((key == 0) || (key == id)) ≡ false → (key ≢ 0) × (key ≢ id)
taken_by_other key id h = ground arith

set_slot-Changed :
    (t : Table) (at id generation : ℕ)
    → ((t at).site_id ≡ 0) ⊎ ((t at).site_id ≡ id)
    → Changed t (set_slot t at (record { site_id = id; generation = generation })) id generation
set_slot-Changed t at id generation h i = elim (Bool-cases (i == at)) [
  | inl same ↦ inr (
    ap (λ b. if b then record { site_id = id; generation = generation } else t i) same,
    rw ((==_iff i at).0 same) h,
  )
  | inr other ↦
      inl (ap (λ b. if b then record { site_id = id; generation = generation } else t i) other)
]

table_or : Table → Option Table → Table
table_or t none = t
table_or t (some t') = t'

-- The loops, one slot further.
record_from-free :
    (n slot id generation : ℕ) (t : Table)
    → (((t slot).site_id == 0) || ((t slot).site_id == id)) ≡ true
    → record_from (suc n) slot id generation t
      ≡ some (set_slot t slot (record { site_id = id; generation = generation }))
unfolding record_from
record_from-free n slot id generation t h = rw h refl

record_from-on :
    (n slot id generation : ℕ) (t : Table)
    → (((t slot).site_id == 0) || ((t slot).site_id == id)) ≡ false
    → record_from (suc n) slot id generation t ≡ record_from n (following_slot slot) id generation t
unfolding record_from
record_from-on n slot id generation t h = rw h refl

same_key : (key id : ℕ) → key ≡ id → (key == id) ≡ true
same_key key id h = ground arith

other_key : (key id : ℕ) → key ≢ id → (key == id) ≡ false
other_key key id h = ground arith

find_from-hit :
    (n slot id : ℕ) (t : Table)
    → (t slot).site_id ≡ id
    → find_from (suc n) slot id t ≡ some (t slot).generation
unfolding find_from
find_from-hit n slot id t h = let hit = same_key (t slot).site_id id h in rw hit refl

find_from-on :
    (n slot id : ℕ) (t : Table)
    → (t slot).site_id ≢ id
    → (t slot).site_id ≢ 0
    → find_from (suc n) slot id t ≡ find_from n (following_slot slot) id t
unfolding find_from
find_from-on n slot id t h k =
    let missed = other_key (t slot).site_id id h in
    let full = other_key (t slot).site_id 0 k in rw (missed, full) refl

record_from-Changed :
    (n slot id generation : ℕ) (t t' : Table)
    → record_from n slot id generation t ≡ some t'
    → Changed t t' id generation
unfolding record_from table_or
record_from-Changed zero slot id generation t t' e = absurd (cc e)
record_from-Changed (suc n) slot id generation t t' e =
    elim (Bool-cases (((t slot).site_id == 0) || ((t slot).site_id == id))) [
      | inl mine ↦
          subst (λ x. Changed t x id generation)
            (ap (table_or t) (sym (record_from-free n slot id generation t mine) ∙ e))
            (set_slot-Changed t slot id generation (free_or_own (t slot).site_id id mine))
      | inr theirs ↦
          record_from-Changed n (following_slot slot) id generation t t'
            (sym (record_from-on n slot id generation t theirs) ∙ e)
    ]

-- The site that was recorded is found.
found_own :
    (n slot id generation : ℕ) (t t' : Table)
    → record_from n slot id generation t ≡ some t'
    → find_from n slot id t' ≡ some generation
unfolding record_from table_or
found_own zero slot id generation t t' e = absurd (cc e)
found_own (suc n) slot id generation t t' e =
    let given : SiteSlot = record { site_id = id; generation = generation } in
    let hit : t' slot ≡ given → find_from (suc n) slot id t' ≡ some generation =
      λ at. find_from-hit n slot id t' (ap (λ x. x.site_id) at) ∙ ap (λ x. some x.generation) at in
    elim (Bool-cases (((t slot).site_id == 0) || ((t slot).site_id == id))) [
      | inl mine ↦ hit (
          ap (λ x. x slot)
            (sym (ap (table_or t) (sym (record_from-free n slot id generation t mine) ∙ e)))
          ∙ ap (λ b. if b then given else t slot) (==_refl slot))
      | inr theirs ↦ elim (record_from-Changed (suc n) slot id generation t t' e slot) [
        | inr (at, free) ↦ hit at
        | inl same ↦
            let (full, foreign) = taken_by_other (t slot).site_id id theirs in
            let key : (t' slot).site_id ≡ (t slot).site_id = ap (λ x. x.site_id) same in
            find_from-on n slot id t' (λ h. foreign (sym key ∙ h)) (λ h. full (sym key ∙ h))
            ∙ found_own n (following_slot slot) id generation t t'
                (sym (record_from-on n slot id generation t theirs) ∙ e)
      ]
    ]

Absent-answer :
    (n slot id : ℕ) (t : Table) → Absent n slot id t → answer (find_from n slot id t) ≡ 0
unfolding find_from
Absent-answer zero slot id t h = refl
Absent-answer (suc n) slot id t (h, more) =
    let missed = other_key (t slot).site_id id h in
    elim (Bool-cases ((t slot).site_id == 0)) [
      | inl empty ↦ rw (missed, empty) refl
      | inr full ↦ rw (missed, full) (Absent-answer n (following_slot slot) id t more)
    ]

-- For another site the slot that changed is no match, before and after.
key_kept :
    (t t' : Table) (id generation other slot : ℕ)
    → Changed t t' id generation
    → id ≢ other
    → (t slot).site_id ≢ other
    → (t' slot).site_id ≢ other
key_kept t t' id generation other slot c foreign h = elim (c slot) [
  | inl same ↦ λ e. h (sym (ap (λ x. x.site_id) same) ∙ e)
  | inr (at, free) ↦ λ e. foreign (sym (ap (λ x. x.site_id) at) ∙ e)
]

Absent-kept :
    (n slot other : ℕ) (t t' : Table) (id generation : ℕ)
    → Changed t t' id generation
    → id ≢ other
    → Absent n slot other t
    → Absent n slot other t'
Absent-kept zero slot other t t' id generation c foreign h = tt
Absent-kept (suc n) slot other t t' id generation c foreign (h, more) = (
  key_kept t t' id generation other slot c foreign h,
  Absent-kept n (following_slot slot) other t t' id generation c foreign more,
)

hit_kept :
    (t t' : Table) (id generation other slot : ℕ)
    → Changed t t' id generation
    → id ≢ other
    → other ≢ 0
    → (t slot).site_id ≡ other
    → t' slot ≡ t slot
hit_kept t t' id generation other slot c foreign real h = elim (c slot) [
  | inl same ↦ same
  | inr (at, inl empty) ↦ absurd (real (sym h ∙ empty))
  | inr (at, inr own) ↦ absurd (foreign (sym own ∙ h))
]

different : (a b : ℕ) → (a == b) ≡ false → a ≢ b
different a b h = ground arith

-- Two tables that agree on a slot with the site.
same_hit :
    (n slot other : ℕ) (t t' : Table)
    → (t slot).site_id ≡ other
    → t' slot ≡ t slot
    → (answer (find_from (suc n) slot other t') ≡ answer (find_from (suc n) slot other t))
      × Packed (suc n) slot other t'
same_hit n slot other t t' h same =
    let there = ap (λ x. x.site_id) same ∙ h in
    (
      ap answer (
          find_from-hit n slot other t' there
          ∙ ap (λ x. some x.generation) same
          ∙ sym (find_from-hit n slot other t h)),
      inl there,
    )

found_other :
    (n slot other : ℕ) (t t' : Table) (id generation : ℕ)
    → Changed t t' id generation
    → id ≢ other
    → other ≢ 0
    → Packed n slot other t
    → (answer (find_from n slot other t') ≡ answer (find_from n slot other t))
      × Packed n slot other t'
unfolding find_from
found_other zero slot other t t' id generation c foreign real p = (refl, tt)
found_other (suc n) slot other t t' id generation c foreign real (inl h) =
    same_hit n slot other t t' h (hit_kept t t' id generation other slot c foreign real h)
found_other (suc n) slot other t t' id generation c foreign real (inr (inl gone)) =
    elim (Bool-cases ((t slot).site_id == other)) [
      | inl this ↦
          let h = (==_iff (t slot).site_id other).0 this in
          same_hit n slot other t t' h (hit_kept t t' id generation other slot c foreign real h)
      | inr missed ↦
          let h : (t slot).site_id ≢ other = different (t slot).site_id other missed in
          let kept = Absent-kept (suc n) slot other t t' id generation c foreign (h, gone) in
          (
            Absent-answer (suc n) slot other t' kept
                ∙ sym (Absent-answer (suc n) slot other t (h, gone)),
            inr (inl kept.1),
          )
    ]
found_other (suc n) slot other t t' id generation c foreign real (inr (inr (full, packed))) =
    elim (Bool-cases ((t slot).site_id == other)) [
      | inl this ↦
          let h = (==_iff (t slot).site_id other).0 this in
          same_hit n slot other t t' h (hit_kept t t' id generation other slot c foreign real h)
      | inr missed ↦
          let h : (t slot).site_id ≢ other = different (t slot).site_id other missed in
          let kept = key_kept t t' id generation other slot c foreign h in
          let full' = still_full (c slot) in
          let (same, packed') =
            found_other n (following_slot slot) other t t' id generation c foreign real packed in
          (
            ap answer (find_from-on n slot other t' kept full')
                ∙ same
                ∙ sym (ap answer (find_from-on n slot other t h full)),
            inr (inr (full', packed')),
          )
    ]
  where
    still_full :
        (t' slot ≡ t slot)
          ⊎ ((t' slot ≡ record { site_id = id; generation = generation })
              × (((t slot).site_id ≡ 0) ⊎ ((t slot).site_id ≡ id)))
        → (t' slot).site_id ≢ 0
    still_full (inl same) e = full (sym (ap (λ x. x.site_id) same) ∙ e)
    still_full (inr (at, inl empty)) e = full empty
    still_full (inr (at, inr own)) e = full (own ∙ sym (ap (λ x. x.site_id) at) ∙ e)

Packed-own :
    (n slot id generation : ℕ) (t t' : Table)
    → record_from n slot id generation t ≡ some t'
    → Packed n slot id t'
unfolding record_from table_or
Packed-own zero slot id generation t t' e = tt
Packed-own (suc n) slot id generation t t' e =
    let given : SiteSlot = record { site_id = id; generation = generation } in
    elim (Bool-cases (((t slot).site_id == 0) || ((t slot).site_id == id))) [
      | inl mine ↦ inl (
          ap (λ x. (x slot).site_id)
            (sym (ap (table_or t) (sym (record_from-free n slot id generation t mine) ∙ e)))
          ∙ ap (λ b. (if b then given else t slot).site_id) (==_refl slot))
      | inr theirs ↦ elim (record_from-Changed (suc n) slot id generation t t' e slot) [
        | inr (at, free) ↦ inl (ap (λ x. x.site_id) at)
        | inl same ↦
            let (full, foreign) = taken_by_other (t slot).site_id id theirs in
            inr (
              inr (
                λ h. full (sym (ap (λ x. x.site_id) same) ∙ h),
                Packed-own n (following_slot slot) id generation t t'
                    (sym (record_from-on n slot id generation t theirs) ∙ e),
              ))
      ]
    ]

-- A table in which each site is found before an empty slot, or not at all.
abbrev pub Consistent : Table → Type 0
Consistent t = (id : ℕ) → id ≢ 0 → Packed probe_limit (probe_start id) id t

-- In a consistent table a site that is not 0 is recorded within its 32 probes, and then its
-- generation is looked up as recorded, every other site's as before, and the table is consistent
-- again; or the table is left as it was, which the count of exhausted searches tells. One thread
-- calls at a time.
pub record_site_lem :
    (id generation : ℕ) (t : Table) (exhausted : ℕ)
    → id ≢ 0
    → Consistent t
    → let (t', exhausted') = record_site id generation t exhausted in
      ((exhausted' ≡ exhausted)
        × (generation_for id t' exhausted' ≡ (generation, exhausted'))
        × ((other : ℕ)
            → other ≢ id
            → other ≢ 0
            → (generation_for other t' exhausted').0 ≡ (generation_for other t exhausted).0)
        × Consistent t')
      ⊎ ((t' ≡ t) × (exhausted' ≡ (exhausted + 1) % 2 ^ 64))
unfolding record_site generation_for
record_site_lem id generation t exhausted real c =
    elim (Option-cases (record_from probe_limit (probe_start id) id generation t)) [
      | inl e ↦ rw e (inr (refl, refl))
      | inr (t', e) ↦
          let changed = record_from-Changed probe_limit (probe_start id) id generation t t' e in
          let others = λ (other : ℕ) (apart : other ≢ id) (there : other ≢ 0).
            found_other probe_limit (probe_start other) other t t' id generation changed
              (λ h. apart (sym h)) there (c other there) in
          rw e (
            inl (
              refl,
              ap (λ o. or_exhausted o exhausted)
                  (found_own probe_limit (probe_start id) id generation t t' e),
              λ other apart there.
                  answered (find_from probe_limit (probe_start other) other t') exhausted
                  ∙ (others other apart there).0
                  ∙ sym (answered (find_from probe_limit (probe_start other) other t) exhausted),
              λ other there. elim (Bool-cases (other == id)) [
                | inl same ↦
                    let this = (==_iff other id).0 same in
                    rw this (Packed-own probe_limit (probe_start id) id generation t t' e)
                | inr apart ↦ (others other (different other id apart) there).1
              ],
            ))
    ]
  where
    answered : (o : Option ℕ) (exhausted : ℕ) → (or_exhausted o exhausted).0 ≡ answer o
    answered none exhausted = refl
    answered (some generation) exhausted = refl
