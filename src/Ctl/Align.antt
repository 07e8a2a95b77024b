-- ===== src/Ctl/Align.antt =====
-- The columns of a table stand under each other.
use rusnel.Base.{
  ℕ, zero, suc, ◌+◌, ◌-◌, ◌≤◌, ◌≡◌, refl, arith, Option, some, List, [], ◌∷◌, ◌++◌, Bytes, length,
  map, All,
}
use rusnel.Text.{text, char_count}
use rusnel.Ctl.{Table, spaces, pad_cell, widen, widths_of, push_row, push_rows, render}

-- A line that shows the cells, each but the last one filled up with spaces to the characters of its column.
pub data IsLine : List ℕ → List Bytes → Bytes → Type 0 where
  last : (ws : List ℕ) (cell : Bytes) → IsLine ws (cell ∷ []) (cell ++ text "\n")
  column :
      (w n : ℕ) (ws : List ℕ) (cell next : Bytes) (cells : List Bytes) {rest : Bytes}
      → char_count (cell ++ spaces n) ≡ w
      → IsLine ws (next ∷ cells) rest
      → IsLine (w ∷ ws) (cell ∷ next ∷ cells) (((cell ++ spaces n) ++ text "  ") ++ rest)

-- One line for each row, under the same widths.
pub data AreLines (ws : List ℕ) : List (List Bytes) → Bytes → Type 0 where
  no_line : AreLines ws [] []
  a_line :
      {row : List Bytes} {rows : List (List Bytes)} {line rest : Bytes}
      → IsLine ws row line
      → AreLines ws rows rest
      → AreLines ws (row ∷ rows) (line ++ rest)

-- No cell is wider than its column.
abbrev pub Fits : List ℕ → List Bytes → Type 0
Fits [] [] = Unit
Fits [] (cell ∷ row) = ⊥
Fits (w ∷ ws) [] = ⊥
Fits (w ∷ ws) (cell ∷ row) = (length cell ≤ w) × Fits ws row

widen-Fits : (ws : List ℕ) (row : List Bytes) → length row ≡ length ws → Fits (widen ws row) row
widen-Fits [] [] e = tt
widen-Fits [] (cell ∷ row) e = absurd (omega (arith, e))
widen-Fits (w ∷ ws) [] e = absurd (omega (arith, e))
widen-Fits (w ∷ ws) (cell ∷ row) e = (ground arith, widen-Fits ws row (omega (arith, e)))

widen-keeps : (ws : List ℕ) (row old : List Bytes) → Fits ws old → Fits (widen ws row) old
widen-keeps [] row old h = h
widen-keeps (w ∷ ws) [] old h = h
widen-keeps (w ∷ ws) (cell ∷ row) [] h = absurd h
widen-keeps (w ∷ ws) (cell ∷ row) (o ∷ old) h = (ground (arith, h.0), widen-keeps ws row old h.1)

length-widen : (ws : List ℕ) (row : List Bytes) → length (widen ws row) ≡ length ws
length-widen [] row = refl
length-widen (w ∷ ws) [] = refl
length-widen (w ∷ ws) (cell ∷ row) = omega (arith, length-widen ws row)

widths_of-keeps :
    (ws : List ℕ) (rows : List (List Bytes)) (old : List Bytes)
    → Fits ws old
    → Fits (widths_of ws rows) old
widths_of-keeps ws [] old h = h
widths_of-keeps ws (row ∷ rows) old h =
    widths_of-keeps (widen ws row) rows old (widen-keeps ws row old h)

-- The rows are as long as the headings.
abbrev pub IsRect : ℕ → List (List Bytes) → Type 0
IsRect n rows = All (λ (row : List Bytes). length row ≡ n) rows

widths_of-Fits :
    (ws : List ℕ) (rows : List (List Bytes))
    → IsRect (length ws) rows
    → All (Fits (widths_of ws rows)) rows
widths_of-Fits ws [] h = tt
widths_of-Fits ws (row ∷ rows) h = (
  widths_of-keeps (widen ws row) rows row (widen-Fits ws row h.0),
  widths_of-Fits (widen ws row) rows (rw (length-widen ws row) h.1),
)

headings-Fit : (headers : List Bytes) → Fits (map length headers) headers
headings-Fit [] = tt
headings-Fit (h ∷ headers) = (omega arith, headings-Fit headers)

char_count_le : (s : Bytes) → char_count s ≤ length s
char_count_le [] = omega arith
char_count_le (b ∷ s) = ground (arith, char_count_le s)

char_count-spaces : (s : Bytes) (n : ℕ) → char_count (s ++ spaces n) ≡ char_count s + n
char_count-spaces [] zero = refl
char_count-spaces [] (suc n) = omega (arith, char_count-spaces [] n)
char_count-spaces (b ∷ s) n = ground (arith, char_count-spaces s n)

pad_cell_width : (cell : Bytes) (w : ℕ) → length cell ≤ w → char_count (pad_cell cell w) ≡ w
pad_cell_width cell w h =
    omega (arith, char_count-spaces cell (w - char_count cell), char_count_le cell, h)

-- What `push_row` makes of a row that fits.
abbrev Lined : List ℕ → List Bytes → Type 0
Lined ws row = (line : Bytes) × (push_row row ws ≡ some line) × IsLine ws row line

push_row-IsLine : (ws : List ℕ) (row : List Bytes) → 1 ≤ length row → Fits ws row → Lined ws row
push_row-IsLine ws [] n h = absurd (omega (arith, n))
push_row-IsLine [] (cell ∷ row) n h = absurd h
push_row-IsLine (w ∷ ws) (cell ∷ []) n h = (_, refl, last (w ∷ ws) cell)
push_row-IsLine (w ∷ ws) (cell ∷ next ∷ cells) n h =
    let (rest, e, line) = push_row-IsLine ws (next ∷ cells) (omega arith) h.1 in
    (
      _,
      rw e refl,
      column w (w - char_count cell) ws cell next cells (pad_cell_width cell w h.0) line,
    )

-- The table comes out, one line for each row behind the headings, with columns of one width.
abbrev pub IsTabular : List (List Bytes) → Option Bytes → Type 0
IsTabular rows o = (ws : List ℕ) × (out : Bytes) × (o ≡ some out) × AreLines ws rows out

push_rows-AreLines :
    (ws : List ℕ) (rows : List (List Bytes))
    → All (λ (row : List Bytes). 1 ≤ length row) rows
    → All (Fits ws) rows
    → (out : Bytes) × (push_rows rows ws ≡ some out) × AreLines ws rows out
push_rows-AreLines ws [] n h = ([], refl, no_line)
push_rows-AreLines ws (row ∷ rows) n h =
    let (line, e, is_line) = push_row-IsLine ws row n.0 h.0 in
    let (rest, f, are_lines) = push_rows-AreLines ws rows n.1 h.1 in
    (line ++ rest, rw (e, f) refl, a_line is_line are_lines)

nonempty_rows :
    (n : ℕ) (rows : List (List Bytes))
    → 1 ≤ n
    → IsRect n rows
    → All (λ (row : List Bytes). 1 ≤ length row) rows
nonempty_rows n [] p h = tt
nonempty_rows n (row ∷ rows) p h = (omega (arith, p, h.0), nonempty_rows n rows p h.1)

length-headings : (l : List Bytes) → length (map length l) ≡ length l
length-headings [] = refl
length-headings (x ∷ l) = omega (arith, length-headings l)

-- A table with headings, whose rows are as long as those, is rendered without a panic: one line
-- for each row, the headings first, and in every line each column but the last takes the same
-- number of characters.
pub render-IsTabular :
    (t : Table)
    → 1 ≤ length t.headers
    → IsRect (length t.headers) t.rows
    → IsTabular (t.headers ∷ t.rows) (render t)
unfolding render
render-IsTabular t n h =
    let ws = map length t.headers in
    let (out, e, lines) =
      push_rows-AreLines (widths_of ws t.rows) (t.headers ∷ t.rows)
        (n, nonempty_rows (length t.headers) t.rows n h)
        (
          widths_of-keeps ws t.rows t.headers (headings-Fit t.headers),
          widths_of-Fits ws t.rows (rw (length-headings t.headers) h),
        ) in
    (widths_of ws t.rows, out, e, lines)
