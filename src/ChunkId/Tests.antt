-- ===== src/ChunkId/Tests.antt =====
-- Names of chunks of lua/src/lobject.c.
use luava.Base.{[], ◌∷◌, ◌++◌, ◌≡◌, refl, replicate}
use luava.ChunkId.{
  find_from, newline, literal_id, file_id, string_part, string_id, pre, rets, post, chunkid,
}
use luava.ChunkId.Fitting.{Fits, chunkid-Fits}

chunkid-Fits_example : Fits (chunkid (64 ∷ replicate 70 97))
chunkid-Fits_example = chunkid-Fits (64 ∷ replicate 70 97)

-- =ab
id_literal : chunkid (61 ∷ 97 ∷ 98 ∷ []) ≡ 97 ∷ 98 ∷ 0 ∷ []
unfolding chunkid literal_id
id_literal = refl

id_file : chunkid (64 ∷ replicate 70 97) ≡ rets ++ (replicate 56 97 ++ (0 ∷ []))
unfolding chunkid file_id
id_file = refl

-- The first line of two.
id_lines : chunkid (97 ∷ 10 ∷ 98 ∷ []) ≡ pre ++ (97 ∷ (rets ++ (post ++ (0 ∷ []))))
unfolding chunkid string_id string_part newline find_from
id_lines = refl
