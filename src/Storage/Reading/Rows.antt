-- ===== src/Storage/Reading/Rows.antt =====
-- What `BuildSnapshotJson` of storage/DB/Proc/userStateProc.cpp writes is read back.
use mmorpg_server_rl_portfol.Prelude.{
  ℕ, zero, suc, ◌<◌, ◌≡◌, ◌∙◌, refl, ap, Bool, true, false, List, [], ◌∷◌, ◌++◌, map, length,
  Option, some, arith,
}
use mmorpg_server_rl_portfol.Field.Types.{UserSnapshot}
use mmorpg_server_rl_portfol.Storage.Json.{
  codes, show_int, show_row, show_rows, build_snapshot_json,
}
use mmorpg_server_rl_portfol.Storage.Reading.{
  Row, ◌>>=◌, read_row, read_rows, read_json, read_nat-show_nat, read_int-show_int, IsPlain,
  until_comma-plain,
}

module _ {F : Type 0} (show_double : F → List ℕ) (plain : (x : F) → IsPlain (show_double x)) where
  -- What a reader of the text knows of a snapshot.
  abbrev pub row_of : UserSnapshot F → Row
  row_of s = record { uid = s.uid; x = show_double s.x; z = show_double s.z; hp = s.hp; sp = s.sp }

  read_row-show_row :
      (s : UserSnapshot F) (rest : List ℕ)
      → read_row (show_row show_double s rest) ≡ some (row_of s, rest)
  unfolding show_row
  read_row-show_row s rest =
      let end = codes "}" ++ rest in
      let sp = show_int s.sp end in
      let hp = show_int s.hp (codes ",\"sp\":" ++ sp) in
      let z = show_double s.z ++ (codes ",\"hp\":" ++ hp) in
      let x = show_double s.x ++ (codes ",\"z\":" ++ z) in
      rw (read_nat-show_nat b',' (codes "\"x\":" ++ x) refl s.uid) (
        rw (until_comma-plain (show_double s.x) (codes "\"z\":" ++ z) (plain s.x)) (
          rw (until_comma-plain (show_double s.z) (codes "\"hp\":" ++ hp) (plain s.z)) (
            rw (read_int-show_int b',' (codes "\"sp\":" ++ sp) refl s.hp)
              (rw (read_int-show_int b'}' rest refl s.sp) refl))))

  -- An object and those after it.
  read_row-and :
      (s : UserSnapshot F) (snap : List (UserSnapshot F)) (fuel : ℕ) (rest : List ℕ)
      → read_rows fuel true rest ≡ some (map row_of snap)
      → (read_row (show_row show_double s rest) >>= λ r.
          read_rows fuel true r.1 >>= λ rows. some (r.0 ∷ rows))
        ≡ some (map row_of (s ∷ snap))
  read_row-and s snap fuel rest later =
      ap
        (λ (o : Option (Row × List ℕ)).
          o >>= λ r. read_rows fuel true r.1 >>= λ rows. some (r.0 ∷ rows))
        (read_row-show_row s rest)
      ∙ ap (λ (o : Option (List Row)). o >>= λ rows. some (row_of s ∷ rows)) later

  read_rows-show_rows :
      (snap : List (UserSnapshot F)) (later : Bool) (fuel : ℕ)
      → length snap < fuel
      → read_rows fuel later (show_rows show_double later snap (codes "]")) ≡ some (map row_of snap)
  unfolding read_rows show_rows
  read_rows-show_rows snap later zero h = absurd (omega arith)
  read_rows-show_rows [] later (suc fuel) h = refl
  read_rows-show_rows (s ∷ snap) true (suc fuel) h =
      read_row-and s snap fuel (show_rows show_double true snap (codes "]"))
        (read_rows-show_rows snap true fuel (omega arith))
  read_rows-show_rows (s ∷ snap) false (suc fuel) h =
      read_row-and s snap fuel (show_rows show_double true snap (codes "]"))
        (read_rows-show_rows snap true fuel (omega arith))

  -- The text handed to the database says what was fetched: read back, it gives the snapshots in order,
  -- each with its uid, the print of its coordinates and its points, provided that no print of a
  -- coordinate holds a comma.
  pub read_json-build_snapshot_json :
      (snap : List (UserSnapshot F)) (fuel : ℕ)
      → length snap < fuel
      → read_json fuel (build_snapshot_json show_double snap) ≡ some (map row_of snap)
  unfolding read_json build_snapshot_json
  read_json-build_snapshot_json snap fuel h = read_rows-show_rows snap false fuel h
