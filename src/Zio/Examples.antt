-- ===== src/Zio/Examples.antt =====
-- Streams of several blocks, and the theorems at concrete streams.
use luava.Base.{◌≤◌, ◌≡◌, refl, [], ◌∷◌, length, take, drop}
use luava.Zio.{Zio, read, read_loop, check_buffer, check_buffer_from, fill_from, get_addr}
use luava.Zio.Contents.{contents, IsRead, read-IsRead, get_addr_sound}

-- Two blocks, of three bytes and one, and what follows the end of the stream.
abbrev blocks : Zio
blocks = record { buffer = []; pieces = (1 ∷ 2 ∷ 3 ∷ []) ∷ (4 ∷ []) ∷ [] ∷ (5 ∷ []) ∷ [] }

across : (read blocks 4).bytes ≡ 1 ∷ 2 ∷ 3 ∷ 4 ∷ []
unfolding read read_loop check_buffer check_buffer_from fill_from
across = refl

missing_two : (read blocks 6).missing ≡ 2
unfolding read read_loop check_buffer check_buffer_from fill_from
missing_two = refl

read-IsRead_example : IsRead 4 [] (contents blocks) (read blocks 4)
read-IsRead_example = read-IsRead blocks 4

get_addr_sound_example :
    (1 ∷ 2 ∷ [] ≡ take 2 (contents blocks))
    × (contents (record { buffer = 3 ∷ []; pieces = (4 ∷ []) ∷ [] ∷ (5 ∷ []) ∷ [] })
        ≡ drop 2 (contents blocks))
    × (2 ≤ length (contents blocks))
unfolding get_addr check_buffer check_buffer_from fill_from
get_addr_sound_example =
    get_addr_sound blocks 2 (1 ∷ 2 ∷ [])
      (record { buffer = 3 ∷ []; pieces = (4 ∷ []) ∷ [] ∷ (5 ∷ []) ∷ [] }) refl
