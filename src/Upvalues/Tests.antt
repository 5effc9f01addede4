-- ===== src/Upvalues/Tests.antt =====
-- Upvalues and to-be-closed variables of lua/src/lfunc.c on small stacks.
use luava.Base.{◌==◌, leb, update, ℕ, ◌+◌, ◌<◌, ◌≡◌, refl, arith, some, [], ◌∷◌}
use luava.Upvalues.{State, Tbc, newupval, find_upval, level_of, findupval, value}
use luava.Upvalues.{closeupval, done, insert_tbc, newtbcupval, close_loop}
use luava.Upvalues.Values.{Reach, here, then_step, capture, Reach-IsOpenList}
use luava.Upvalues.Values.{findupval-shares, closeupval-value}
use luava.Upvalues.Order.{IsOpenList}
use luava.Upvalues.Closing.{
  Represents, Agrees, closed, insert_tbc-Represents, newtbcupval-Agrees, close_loop-closed,
}

-- Stack slot i holds 10 + i.
abbrev start : State ℕ
start = record { openupval = []; stack = λ i. 10 + i; slot = λ o. 0; created = 0 }

-- Captures at 3, 7 and 5.
abbrev three : State ℕ
three = (findupval 5 (findupval 7 (findupval 3 start).1).1).1

in_order :
    three.openupval
    ≡ record { object = 1; level = 7 }
      ∷ record { object = 2; level = 5 }
      ∷ record { object = 0; level = 3 }
      ∷ []
unfolding findupval find_upval newupval
in_order = refl

reached : Reach 20 start three
reached =
    then_step
      (then_step (then_step here (capture start 3 (omega arith)))
        (capture (findupval 3 start).1 7 (omega arith)))
      (capture (findupval 7 (findupval 3 start).1).1 5 (omega arith))

Reach-IsOpenList_example : IsOpenList 20 three
Reach-IsOpenList_example = Reach-IsOpenList 20 refl reached

findupval-shares_example :
    (level_of (findupval 5 three).0 (findupval 5 three).1.openupval ≡ some 5)
    × (findupval 5 (findupval 5 three).1 ≡ findupval 5 three)
findupval-shares_example =
    findupval-shares 20 5 three (Reach-IsOpenList 20 refl reached) (omega arith)

closeupval-value_example :
    (value (closeupval 5 three) 1 ≡ value three 1)
    × (value (record (closeupval 5 three) { stack = update three.stack 7 0 }) 1 ≡ value three 1)
closeupval-value_example =
    closeupval-value 20 5 three 7 0 (Reach-IsOpenList 20 refl reached) (omega arith) 1

abbrev empty : Tbc
empty = record { tbclist = 0; delta = λ i. 0 }

empty-Represents : Represents empty []
unfolding Represents
empty-Represents = refl

-- A variable far up the stack, behind two dummy nodes.
far : Represents (insert_tbc 200000 (insert_tbc 4 empty)) (200000 ∷ 4 ∷ [])
far =
    insert_tbc-Represents 200000 (insert_tbc 4 empty) (4 ∷ [])
      (insert_tbc-Represents 4 empty [] empty-Represents (omega arith)) near
  where
    near : (insert_tbc 4 empty).tbclist < 200000
    near = unfold insert_tbc in omega arith

-- Values are numbers, of which 0 is false and those from 100 on have a close method.
newtbcupval-Agrees_example :
    Agrees (newtbcupval (λ v. v == 0) (λ v. leb 100 v) (λ i. 96 + i) 4 empty) (done (4 ∷ []))
newtbcupval-Agrees_example =
    newtbcupval-Agrees (λ v. v == 0) (λ v. leb 100 v) (λ i. 96 + i) 4 empty [] empty-Represents
      (omega arith)

close_loop-closed_example :
    ((close_loop 5 3 (insert_tbc 4 empty)).0 ≡ (closed 3 (4 ∷ [])).0)
    × Represents (close_loop 5 3 (insert_tbc 4 empty)).1 (closed 3 (4 ∷ [])).1
unfolding insert_tbc
close_loop-closed_example =
    close_loop-closed 5 3 (4 ∷ []) (insert_tbc 4 empty)
      (insert_tbc-Represents 4 empty [] empty-Represents (omega arith)) (omega arith) (omega arith)
