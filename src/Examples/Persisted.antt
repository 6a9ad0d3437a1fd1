-- ===== src/Examples/Persisted.antt =====
-- The theorems on stored values at concrete inputs.
use zencan.Base.{
  if◌then◌else◌, ◌==◌, ◌&&◌, ℕ, ◌≡◌, refl, true, List, [], ◌∷◌, ◌++◌, ok, length, drop,
}
use zencan.Objects.{new_u32, ObjectCode}
use zencan.Dict.{ObjectAccess, OdEntry}
use zencan.Persist.{ObjectShape, Restored, restore_stored_objects}
use zencan.Persist.Reader.{
  Reads, restore_stored_objects-Reads, restore_stored_objects-empty, stored,
}

-- The values of all sub objects.
abbrev Values : Type 0
Values = ℕ → ℕ → List ℕ

-- An object of one value.
abbrev value_object : ℕ → ObjectAccess Values
value_object index = record {
  read = λ sub offset buf s.
      (ok (length (s index sub)), s index sub ++ drop (length (s index sub)) buf, s);
  write = λ sub bytes s. (ok tt, λ i j. if (i == index) && (j == sub) then bytes else s i j);
  begin_partial = λ sub s. (ok tt, s);
  write_partial = λ sub bytes s. (ok tt, s);
  end_partial = λ sub s. (ok tt, s);
  sub_info = λ sub s. ok (record new_u32 { persist = true });
}

abbrev shape : ObjectShape Values
shape = record {
  read_size = λ index sub s. ok (length (s index sub));
  object_code = λ index. ObjectCode.var;
}

abbrev first : OdEntry Values
first = record { index = 0x2000; object = value_object 0x2000 }

abbrev second : OdEntry Values
second = record { index = 0x2001; object = value_object 0x2001 }

abbrev table : List (OdEntry Values)
table = first ∷ second ∷ []

abbrev two_bytes : List ℕ
two_bytes = 7 ∷ 9 ∷ []

abbrev three_bytes : List ℕ
three_bytes = 1 ∷ 2 ∷ 3 ∷ []

abbrev stored_values : Values
stored_values i j = if i == 0x2000 then two_bytes else three_bytes

abbrev no_values : Values
no_values i j = []

-- A node with the value 7 9 of object 0x2000, and a second node that is cut short.
abbrev cut_short : List ℕ
cut_short = 6 ∷ 0 ∷ 1 ∷ 0 ∷ 0x20 ∷ 0 ∷ 7 ∷ 9 ∷ 5 ∷ 0 ∷ 1 ∷ []

restore_ends_example :
    Reads table cut_short no_values (restore_stored_objects table cut_short no_values)
restore_ends_example = restore_stored_objects-Reads table cut_short no_values

restore_empty_example :
    restore_stored_objects table
      (stored (record { index = 0x2001; sub = 0; data_bytes = [] })
        ++ stored (record { index = 0x2000; sub = 0; data_bytes = two_bytes }))
      no_values
    ≡ Restored.finished no_values
restore_empty_example =
    restore_stored_objects-empty table 0x2001 0
      (stored (record { index = 0x2000; sub = 0; data_bytes = two_bytes })) no_values

-- A node that is cut short is a panic: the slice of the buffer is out of range.
cut_short_panics : restore_stored_objects table cut_short no_values ≡ Restored.panicked
unfolding restore_stored_objects
cut_short_panics = refl
