-- ===== src/Timers/Queue/Parts.antt =====
-- The map by time points: what each change does to each time point, and that no time point is left empty.
use btool.Common.{
  ℕ, ◌≡◌, refl, Bool, true, false, not, ◌&&◌, List, [], ◌∷◌, none, some, ◌==◌, if◌then◌else◌, arith,
  Option-cases, inl, inr,
}
use btool.Common.Assoc.{contains, remove, lookup, erase, lookup-erase}
use btool.Timers.Sorted.{put_key, put, lookup-put, sorted, sorted-put, sorted-erase}
use btool.Timers.Queue.{bucket, add_to_part, remove_from_part_queue, is_nil}

pub bucket-put :
    (t time_point : ℕ) (ids : List ℕ) (parts : List (ℕ × List ℕ))
    → bucket t (put time_point ids parts) ≡ (if time_point == t then ids else bucket t parts)
unfolding bucket
bucket-put t time_point ids parts = ground (arith, lookup-put time_point t ids parts)

pub bucket-erase :
    (t time_point : ℕ) (parts : List (ℕ × List ℕ))
    → bucket t (erase time_point parts) ≡ (if time_point == t then [] else bucket t parts)
unfolding bucket
bucket-erase t time_point parts = ground (arith, lookup-erase time_point t parts)

pub bucket-add_to_part :
    (t id time_point : ℕ) (parts : List (ℕ × List ℕ))
    → bucket t (add_to_part id time_point parts)
      ≡ (if time_point == t then put_key id (bucket time_point parts) else bucket t parts)
unfolding add_to_part
bucket-add_to_part t id time_point parts =
    bucket-put t time_point (put_key id (bucket time_point parts)) parts

pub bucket-none : (t : ℕ) (parts : List (ℕ × List ℕ)) → lookup t parts ≡ none → bucket t parts ≡ []
unfolding bucket
bucket-none t parts e = rw (e, bucket) refl

pub bucket-some :
    (t : ℕ) (ids : List ℕ) (parts : List (ℕ × List ℕ))
    → lookup t parts ≡ some ids
    → bucket t parts ≡ ids
unfolding bucket
bucket-some t ids parts e = rw (e, bucket) refl

remove_absent : (id : ℕ) (ids : List ℕ) → contains id ids ≡ false → remove id ids ≡ ids
unfolding contains remove
remove_absent id [] h = refl
remove_absent id (j ∷ js) h = ground (arith, remove_absent id js)

is_nil-eq : (ids : List ℕ) → is_nil ids ≡ true → ids ≡ []
is_nil-eq [] h = refl
is_nil-eq (i ∷ is) h = absurd (ground arith)

pub bucket-remove_from_part_queue :
    (t id time_point : ℕ) (parts : List (ℕ × List ℕ))
    → bucket t (remove_from_part_queue id time_point parts)
      ≡ (if time_point == t then remove id (bucket time_point parts) else bucket t parts)
unfolding remove_from_part_queue
bucket-remove_from_part_queue t id time_point parts =
    elim (Option-cases (lookup time_point parts)) [
      | inl e ↦ rw (e, remove_from_part_queue) (ground (arith, bucket-none time_point parts e))
      | inr (ids, e) ↦
          rw (e, remove_from_part_queue)
            (ground (
              arith,
              bucket-some time_point ids parts e,
              bucket-put t time_point (remove id ids) parts,
              bucket-erase t time_point parts,
              remove_absent id ids,
              is_nil-eq (remove id ids),
            ))
    ]

-- No time point is empty.
unfoldable pub filled : List (ℕ × List ℕ) → Bool
filled [] = true
filled ((time_point, ids) ∷ parts) = not (is_nil ids) && filled parts

is_nil-put_key : (id : ℕ) (ids : List ℕ) → is_nil (put_key id ids) ≡ false
unfolding put_key
is_nil-put_key id [] = refl
is_nil-put_key id (j ∷ js) = ground arith

filled-put :
    (t : ℕ) (ids : List ℕ) (parts : List (ℕ × List ℕ))
    → is_nil ids ≡ false
    → filled parts ≡ true
    → filled (put t ids parts) ≡ true
unfolding filled put
filled-put t ids [] n h = ground arith
filled-put t ids ((other, old) ∷ parts) n h = ground (arith, filled-put t ids parts n)

filled-erase :
    (t : ℕ) (parts : List (ℕ × List ℕ)) → filled parts ≡ true → filled (erase t parts) ≡ true
unfolding filled erase
filled-erase t [] h = refl
filled-erase t ((other, old) ∷ parts) h = ground (arith, filled-erase t parts)

pub record IsTidy (parts : List (ℕ × List ℕ)) : Type 0 where
  pub in_order : sorted parts ≡ true
  pub no_empty : filled parts ≡ true

pub IsTidy-add_to_part :
    (id t : ℕ) (parts : List (ℕ × List ℕ)) → IsTidy parts → IsTidy (add_to_part id t parts)
unfolding add_to_part
IsTidy-add_to_part id t parts w = record {
  in_order = sorted-put t (put_key id (bucket t parts)) parts w.in_order;
  no_empty =
      filled-put t (put_key id (bucket t parts)) parts (is_nil-put_key id (bucket t parts))
        w.no_empty;
}

pub IsTidy-erase : (t : ℕ) (parts : List (ℕ × List ℕ)) → IsTidy parts → IsTidy (erase t parts)
IsTidy-erase t parts w = record {
  in_order = sorted-erase t parts w.in_order;
  no_empty = filled-erase t parts w.no_empty;
}

pick-IsTidy :
    {parts : List (ℕ × List ℕ)} (t : ℕ) (ids : List ℕ) (held : Bool)
    → IsTidy parts
    → IsTidy (if not held then parts else if is_nil ids then erase t parts else put t ids parts)
pick-IsTidy t ids false w = w
pick-IsTidy {parts = parts} t [] true w = IsTidy-erase t parts w
pick-IsTidy {parts = parts} t (i ∷ is) true w = record {
  in_order = sorted-put t (i ∷ is) parts w.in_order;
  no_empty = filled-put t (i ∷ is) parts refl w.no_empty;
}

pub IsTidy-remove_from_part_queue :
    (id t : ℕ) (parts : List (ℕ × List ℕ))
    → IsTidy parts
    → IsTidy (remove_from_part_queue id t parts)
unfolding remove_from_part_queue
IsTidy-remove_from_part_queue id t parts w = elim (Option-cases (lookup t parts)) [
  | inl e ↦ rw (e, remove_from_part_queue) w
  | inr (ids, e) ↦
      rw (e, remove_from_part_queue) (pick-IsTidy t (remove id ids) (contains id ids) w)
]
