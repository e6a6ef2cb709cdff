-- ===== src/Storage/Json.antt =====
-- `BuildSnapshotJson` of storage/DB/Proc/userStateProc.cpp. A text is the list of its bytes; each
-- function is given what the stream is sent later. How a double is printed, with `setprecision(9)`, is
-- a parameter.
use Prim.Native.Char.{code}
use Prim.Native.String.{String}
use mmorpg_server_rl_portfol.Prelude.{
  ℕ, zero, suc, ◌+◌, ◌/◌, ◌%◌, ℤ, pos, negsuc, Bool, true, false, List, [], ◌∷◌, ◌++◌, ltb,
  if◌then◌else◌,
}
use mmorpg_server_rl_portfol.Field.Types.{UserSnapshot}

abbrev pub codes : String → List ℕ
codes String.[] = []
codes (String.◌∷◌ c s) = code c ∷ codes s

-- `oss << n`: the digits, the last one first, in front of `rest`. A turn divides by ten, so `n + 1`
-- turns are enough.
unfoldable pub show_digits : ℕ → ℕ → List ℕ → List ℕ
show_digits zero n rest = rest
show_digits (suc fuel) n rest =
    let digit = b'0' + n % 10 in
    let more = show_digits fuel (n / 10) (digit ∷ rest) in if ltb n 10 then digit ∷ rest else more

unfoldable pub show_nat : ℕ → List ℕ → List ℕ
unfolding show_digits
show_nat n rest = show_digits (suc n) n rest

unfoldable pub show_int : ℤ → List ℕ → List ℕ
unfolding show_nat
show_int (pos n) rest = show_nat n rest
show_int (negsuc n) rest = b'-' ∷ show_nat (suc n) rest

module _ {F : Type 0} (show_double : F → List ℕ) where
  -- One object of the array.
  unfoldable pub show_row : UserSnapshot F → List ℕ → List ℕ
  show_row s rest =
      codes "{\"uid\":"
      ++ show_nat s.uid (
          codes ",\"x\":"
          ++ (show_double s.x
              ++ (codes ",\"z\":"
                  ++ (show_double s.z
                      ++ (codes ",\"hp\":"
                          ++ show_int s.hp
                              (codes ",\"sp\":" ++ show_int s.sp (codes "}" ++ rest)))))))

  -- The loop, `later` once an object was written.
  unfoldable pub show_rows : Bool → List (UserSnapshot F) → List ℕ → List ℕ
  unfolding show_row
  show_rows later [] rest = rest
  show_rows later (s ∷ snap) rest =
      (if later then codes "," else []) ++ show_row s (show_rows true snap rest)

  unfoldable pub build_snapshot_json : List (UserSnapshot F) → List ℕ
  unfolding show_rows
  build_snapshot_json snap = codes "[" ++ show_rows false snap (codes "]")
