-- ===== src/Ctl.antt =====
-- `rusnel ctl`: the tables of src/ctl/mod.rs and the requests of `run_ctl` in src/main.rs. HTTP and
-- JSON are third-party: a renderer takes the decoded payload.
pub mod Rows
pub mod Request
pub mod Align
use rusnel.Base.{
  ℕ, zero, suc, ◌-◌, Bool, true, false, Option, none, some, List, [], ◌∷◌, ◌++◌, Bytes, length, map,
  ltb, if◌then◌else◌,
}
use rusnel.Text.{text, char_count}

pub record Table : Type 0 where
  pub headers : List Bytes
  pub rows : List (List Bytes)

abbrev pub spaces : ℕ → Bytes
spaces zero = []
spaces (suc n) = b' ' ∷ spaces n

-- `{:width$}` counts characters.
abbrev pub pad_cell : Bytes → ℕ → Bytes
pad_cell cell width = cell ++ spaces (width - char_count cell)

-- One row of `Table::render`'s first loop, which counts bytes.
abbrev pub widen : List ℕ → List Bytes → List ℕ
widen [] row = []
widen (w ∷ ws) [] = w ∷ ws
widen (w ∷ ws) (cell ∷ row) = (if ltb w (length cell) then length cell else w) ∷ widen ws row

abbrev pub widths_of : List ℕ → List (List Bytes) → List ℕ
widths_of ws [] = ws
widths_of ws (row ∷ rows) = widths_of (widen ws row) rows

abbrev pub in_front : Bytes → Option Bytes → Option Bytes
in_front front none = none
in_front front (some s) = some (front ++ s)

-- `push_row`, the cells from some column on. `none` is a panic: a cell that has no width.
abbrev pub push_row : List Bytes → List ℕ → Option Bytes
push_row [] ws = some (text "\n")
push_row (cell ∷ []) ws = some (cell ++ text "\n")
push_row (cell ∷ next ∷ cells) [] = none
push_row (cell ∷ next ∷ cells) (w ∷ ws) =
    in_front (pad_cell cell w ++ text "  ") (push_row (next ∷ cells) ws)

abbrev pub row_then : Option Bytes → Option Bytes → Option Bytes
row_then none rest = none
row_then (some s) rest = in_front s rest

abbrev pub push_rows : List (List Bytes) → List ℕ → Option Bytes
push_rows [] ws = some []
push_rows (row ∷ rows) ws = row_then (push_row row ws) (push_rows rows ws)

unfoldable pub render : Table → Option Bytes
render t = push_rows (t.headers ∷ t.rows) (widths_of (map length t.headers) t.rows)
