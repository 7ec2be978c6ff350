-- ===== src/Sha1/Tests.antt =====
-- src/sha1.c on "abc".
use wimlib.Common.{◌≡◌, refl, [], ◌∷◌, ◌++◌}
use wimlib.Sha1.Blocks.{
  sha1_blocks, sha1_block, sha1_rounds, sha1_round, schedule, get_be32, sha1_f, sha1_k, rol32,
}
use wimlib.Sha1.Stream.{
  sha1, sha1_final, sha1_update, sha1_init, update_blocks, copy_to, put_be, last_block,
}
use wimlib.Sha1.Laws.{sha1_final-update, init-IsSha1Ctx}

sha1-abc :
    sha1 (b'a' ∷ b'b' ∷ b'c' ∷ [])
    ≡ 0xA9 ∷ 0x99 ∷ 0x3E ∷ 0x36 ∷ 0x47 ∷ 0x06 ∷ 0x81 ∷ 0x6A ∷ 0xBA ∷ 0x3E ∷ 0x25 ∷ 0x71 ∷ 0x78
      ∷ 0x50 ∷ 0xC2 ∷ 0x6C ∷ 0x9C ∷ 0xD0 ∷ 0xD8 ∷ 0x9D ∷ []
unfolding sha1 sha1_final sha1_update sha1_init update_blocks copy_to put_be last_block sha1_blocks
    sha1_block sha1_rounds sha1_round schedule get_be32 sha1_f sha1_k rol32
sha1-abc = refl

sha1_final-update_example :
    sha1_final (sha1_update (sha1_update sha1_init (b'a' ∷ [])) (b'b' ∷ b'c' ∷ []))
    ≡ sha1_final (sha1_update sha1_init ((b'a' ∷ []) ++ (b'b' ∷ b'c' ∷ [])))
sha1_final-update_example =
    sha1_final-update sha1_init (b'a' ∷ []) (b'b' ∷ b'c' ∷ []) init-IsSha1Ctx
