-- ===== src/TicTacToe/Board/Referee.antt =====
-- The moves of `tic_tac_toe_board` against the rules: all eight lines of the board.
use mathlib.Core.Path.{subst, subst⁻¹}
use simple_web_game_server.Prelude.{
  ℕ, zero, suc, ◌+◌, ◌≡◌, inl, inr, refl, sym, ap, ℕ_discrete, ◌∙◌, Bool, true, false, List, [],
  ◌∷◌, ◌&&◌, ◌||◌, ltb, if◌then◌else◌, get_elem?, length, arith, Bool-cases, ◌≤◌,
}
use simple_web_game_server.Prelude.Int.{ℤ, pos, negsuc, ◌==ℤ◌, eq_of_==ℤ, ==ℤ_self}
use simple_web_game_server.TicTacToe.Board.{
  Board, new_board, empty_val, board_value, value_or_empty, get_value, set_value, wins, move,
  add_move, is_done,
}

-- One square, by its number, holds `s`.
abbrev pub holds : List ℤ → ℤ → ℕ → Bool
holds cells s k = value_or_empty (get_elem? cells k) ==ℤ s

-- Three in a row, a column or a diagonal, for the squares that `h` picks.
abbrev pub three_in_line : (ℕ → Bool) → Bool
three_in_line h =
    h 0 && h 1 && h 2
    || h 3 && h 4 && h 5
    || h 6 && h 7 && h 8
    || h 0 && h 3 && h 6
    || h 1 && h 4 && h 7
    || h 2 && h 5 && h 8
    || h 0 && h 4 && h 8
    || h 2 && h 4 && h 6

abbrev pub has_line : List ℤ → ℤ → Bool
has_line cells s = three_in_line (holds cells s)

-- how many squares are taken
abbrev pub taken : List ℤ → ℕ
taken [] = 0
taken (v ∷ vs) = (if v ==ℤ empty_val then 0 else 1) + taken vs

-- The board has nine squares, its count is that of the squares that are taken, and its state is the
-- value that has a line, or 0 if none has.
pub record IsFair (b : Board) : Type 0 where
  pub squares : length b.cells ≡ 9
  pub counted : b.move_count ≡ taken b.cells
  pub judged : (s : ℤ) → (s ==ℤ empty_val) ≡ false → has_line b.cells s ≡ (b.state ==ℤ s)

abbrev nine : ℤ → ℤ → ℤ → ℤ → ℤ → ℤ → ℤ → ℤ → ℤ → List ℤ
nine a b c d e f g h i = a ∷ b ∷ c ∷ d ∷ e ∷ f ∷ g ∷ h ∷ i ∷ []

-- A new square leaves the lines of other values no better, and has the lines that `move` looks at.
abbrev Placed : ℕ → ℕ → ℤ → List ℤ → Type 0
Placed x y v cells =
    let after = set_value x y v cells in
    (length after ≡ 9)
    × (taken after ≡ taken cells + 1)
    × (has_line after v ≡ wins x y v after)
    × ((s : ℤ) → (v ==ℤ s) ≡ false → has_line cells s ≡ false → has_line after s ≡ false)

abbrev Places : ℤ → List ℤ → ℕ → ℕ → Type 0
Places v cells x y =
    (get_value x y cells ==ℤ empty_val) ≡ true → has_line cells v ≡ false → Placed x y v cells

-- A statement on two coordinates holds when it holds at the nine squares.
three : (P : ℕ → Type 0) → P 0 → P 1 → P 2 → (x : ℕ) → ltb 2 x ≡ false → P x
three P p0 p1 p2 x h = elim (ℕ_discrete x 0) [
  | yes e ↦ subst⁻¹ P e p0
  | no n ↦ elim (ℕ_discrete x 1) [ yes e ↦ subst⁻¹ P e p1 | no m ↦ subst⁻¹ P (ground arith) p2 ]
]

module _ (v a b c d e f g h i : ℤ) (full : (v ==ℤ empty_val) ≡ false) where
  places : (x y : ℕ) → ltb 2 x ≡ false → ltb 2 y ≡ false → Places v (nine a b c d e f g h i) x y
  unfolding wins get_value set_value
  places x y hx hy =
      three (λ x. Places v (nine a b c d e f g h i) x y)
        (three (Places v (nine a b c d e f g h i) 0) (λ free clear. ground (arith, ==ℤ_self v))
          (λ free clear. ground (arith, ==ℤ_self v)) (λ free clear. ground (arith, ==ℤ_self v)) y
          hy)
        (three (Places v (nine a b c d e f g h i) 1) (λ free clear. ground (arith, ==ℤ_self v))
          (λ free clear. ground (arith, ==ℤ_self v)) (λ free clear. ground (arith, ==ℤ_self v)) y
          hy)
        (three (Places v (nine a b c d e f g h i) 2) (λ free clear. ground (arith, ==ℤ_self v))
          (λ free clear. ground (arith, ==ℤ_self v)) (λ free clear. ground (arith, ==ℤ_self v)) y
          hy)
        x hx

-- A statement on lists of one length holds when it holds of the lists written out.
Shape : ℕ → (List ℤ → Type 0) → Type 0
Shape zero P = P []
Shape (suc n) P = (v : ℤ) → Shape n (λ l. P (v ∷ l))

shape : (n : ℕ) (P : List ℤ → Type 0) → Shape n P → (cells : List ℤ) → length cells ≡ n → P cells
unfolding Shape
shape zero P p [] h = p
shape zero P p (v ∷ vs) h = ground arith
shape (suc n) P p [] h = ground arith
shape (suc n) P p (v ∷ vs) h = shape n (λ l. P (v ∷ l)) (p v) vs (omega arith)

placed :
    (v : ℤ) (x y : ℕ) (cells : List ℤ)
    → (v ==ℤ empty_val) ≡ false
    → length cells ≡ 9
    → ltb 2 x ≡ false
    → ltb 2 y ≡ false
    → Places v cells x y
unfolding Shape
placed v x y cells full h hx hy =
    shape 9 (λ l. Places v l x y) (λ a b c d e f g k i. places v a b c d e f g k i full x y hx hy)
      cells h

taken_le : (cells : List ℤ) → taken cells ≤ length cells
taken_le [] = omega arith
taken_le (v ∷ vs) = ground (arith, taken_le vs)

zero-ne : (s : ℤ) → (s ==ℤ empty_val) ≡ false → (empty_val ==ℤ s) ≡ false
zero-ne (pos n) h = ground arith
zero-ne (negsuc n) h = refl

-- the state after a move, read at the value of the move and at another one
judge :
    (w : Bool) (v st : ℤ)
    → (v ==ℤ empty_val) ≡ false
    → st ≡ empty_val
    → w ≡ ((if w then v else st) ==ℤ v)
judge true v st h e = sym (==ℤ_self v)
judge false v st h e = sym (ap (λ z. z ==ℤ v) e ∙ zero-ne v h)

judge_other :
    (w : Bool) (v st s : ℤ)
    → (v ==ℤ s) ≡ false
    → (s ==ℤ empty_val) ≡ false
    → st ≡ empty_val
    → ((if w then v else st) ==ℤ s) ≡ false
judge_other true v st s h k e = h
judge_other false v st s h k e = ap (λ z. z ==ℤ s) e ∙ zero-ne s k

pub count_le : (b : Board) → IsFair b → b.move_count ≤ 9
count_le b fair = ground (arith, fair.counted, fair.squares, taken_le b.cells)

move-IsFair :
    (x y : ℕ) (v : ℤ) (b : Board)
    → (v ==ℤ empty_val) ≡ false
    → ltb 2 x ≡ false
    → ltb 2 y ≡ false
    → (get_value x y b.cells ==ℤ empty_val) ≡ true
    → (b.state ==ℤ empty_val) ≡ true
    → IsFair b
    → IsFair (move x y v b)
unfolding move
move-IsFair x y v b full hx hy free open_ fair =
    let still : b.state ≡ empty_val = eq_of_==ℤ b.state empty_val open_ in
    let quiet : (s : ℤ) → (s ==ℤ empty_val) ≡ false → has_line b.cells s ≡ false =
      λ s h. fair.judged s h ∙ ap (λ z. z ==ℤ s) still ∙ zero-ne s h in
    let (keeps, counts, own, others) =
      placed v x y b.cells full fair.squares hx hy free (quiet v full) in
    record {
      squares = keeps;
      counted = ground (arith, counts, fair.counted, fair.squares, taken_le b.cells);
      judged = λ s h. elim (Bool-cases (v ==ℤ s)) [
        | inl e ↦
            subst
              (λ z.
                has_line (set_value x y v b.cells) z
                ≡ ((if wins x y v (set_value x y v b.cells) then v else b.state) ==ℤ z))
              (eq_of_==ℤ v s e)
              (own ∙ judge (wins x y v (set_value x y v b.cells)) v b.state full still)
        | inr e ↦
            others s e (quiet s h)
            ∙ sym (judge_other (wins x y v (set_value x y v b.cells)) v b.state s e h still)
      ];
    }

-- A move of the player `turn`, which the game makes only while the board is not done.
abbrev pub play : ℕ → ℕ → ℕ → Board → Board
play i j turn b = if is_done b then b else (add_move i j (board_value turn) b).0

full_value : (turn : ℕ) → (board_value turn ==ℤ empty_val) ≡ false
full_value turn = ground arith

pub play-IsFair : (i j turn : ℕ) (b : Board) → IsFair b → IsFair (play i j turn b)
unfolding add_move
play-IsFair i j turn b fair = elim (Bool-cases (is_done b)) [
  | inl over ↦ rw over fair
  | inr on ↦ elim (Bool-cases (ltb 2 i || ltb 2 j)) [
    | inl out ↦ rw (on, out) fair
    | inr inside ↦ elim (Bool-cases (get_value i j b.cells ==ℤ empty_val)) [
      | inr full ↦ rw (on, inside, full) fair
      | inl free ↦
          rw (on, inside, free)
            (move-IsFair i j (board_value turn) b (full_value turn) (ground arith) (ground arith)
              free (ground arith) fair)
    ]
  ]
]

unfoldable pub plays : List (ℕ × ℕ × ℕ) → Board → Board
plays [] b = b
plays ((i, j, turn) ∷ ms) b = plays ms (play i j turn b)

plays-IsFair : (ms : List (ℕ × ℕ × ℕ)) (b : Board) → IsFair b → IsFair (plays ms b)
unfolding plays
plays-IsFair [] b fair = fair
plays-IsFair ((i, j, turn) ∷ ms) b fair =
    plays-IsFair ms (play i j turn b) (play-IsFair i j turn b fair)

pub new_board-IsFair : IsFair new_board
new_board-IsFair = record {
  squares = refl;
  counted = refl;
  judged = λ s h. ground (arith, zero-ne s h);
}

-- Whatever moves two players try, on a new board and while it is not done: the board has nine
-- squares, its count of moves is the number of squares that are taken, and for each value but that
-- of an empty square the state is this value exactly when one of the eight lines of the board is
-- full of it. (So no more than one of the players has a line.)
pub referee : (ms : List (ℕ × ℕ × ℕ)) → IsFair (plays ms new_board)
referee ms = plays-IsFair ms new_board new_board-IsFair
