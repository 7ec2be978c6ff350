-- ===== src/Lzx.antt =====
-- src/lzx_common.c: the offset slots of the LZX format and the E8 filter, in its portable form (the
-- one without SSE2 and AVX2 instructions). The constants are those of include/wimlib/lzx_constants.h.
pub mod Target
pub mod Scan
pub mod Filter
pub mod Slots
mod Tests
use wimlib.Common.{
  ℕ, zero, suc, ◌+◌, ◌-◌, ◌*◌, ◌/◌, ◌%◌, ◌^◌, ◌≤◌, ◌<◌, Bool, true, false, ◌&&◌, ◌||◌, not, List,
  [], ◌∷◌, ◌++◌, length, take, drop, replicate, get_or, ltb, leb, ◌==◌, if◌then◌else◌, max,
}
use wimlib.Common.Int.{ℤ, pos, negsuc, ◌+ℤ◌, ◌-ℤ◌, ltb_ℤ, leb_ℤ, signed32, word32}
use wimlib.Common.Bytes.{put_le, get_le}

abbrev pub lzx_wim_magic_filesize : ℕ
lzx_wim_magic_filesize = 12000000

-- The target is the 32-bit word behind the E8 byte, and the result the word that stands there
-- afterwards; where the source stores nothing that is the word as it was.
pub do_translate_target : ℕ → ℕ → ℕ
do_translate_target word input_pos =
    let rel_offset = signed32 word in
    if leb_ℤ (pos 0 -ℤ pos input_pos) rel_offset && ltb_ℤ rel_offset (pos lzx_wim_magic_filesize)
    then (if ltb_ℤ rel_offset (pos lzx_wim_magic_filesize -ℤ pos input_pos)
        then word32 (rel_offset +ℤ pos input_pos)
        else word32 (rel_offset -ℤ pos lzx_wim_magic_filesize))
    else word

pub undo_translate_target : ℕ → ℕ → ℕ
undo_translate_target word input_pos =
    let abs_offset = signed32 word in
    if leb_ℤ (pos 0) abs_offset
    then (if ltb_ℤ abs_offset (pos lzx_wim_magic_filesize)
        then word32 (abs_offset -ℤ pos input_pos)
        else word)
    else if leb_ℤ (pos 0 -ℤ pos input_pos) abs_offset
    then word32 (abs_offset +ℤ pos lzx_wim_magic_filesize)
    else word

-- The loop of `lzx_e8_filter` from `p` on, at position `at` of the data: `tail` is the position of
-- the six E8 bytes that stand at the end meanwhile.
pub e8_scan : (ℕ → ℕ → ℕ) → ℕ → ℕ → List ℕ → List ℕ
e8_scan process_target tail at (b ∷ w ∷ x ∷ y ∷ z ∷ s) =
    let skip = b ∷ e8_scan process_target tail (at + 1) (w ∷ x ∷ y ∷ z ∷ s) in
    let translate =
      b
      ∷ (put_le 4 (process_target (get_le (w ∷ x ∷ y ∷ z ∷ [])) at)
          ++ e8_scan process_target tail (at + 5) s) in
    if not (b == 0xE8) then skip else if leb tail at then b ∷ w ∷ x ∷ y ∷ z ∷ s else translate
e8_scan process_target tail at s = s

pub lzx_e8_filter : (ℕ → ℕ → ℕ) → List ℕ → List ℕ
lzx_e8_filter process_target bytes =
    let tail = length bytes - 6 in
    if leb (length bytes) 10
    then bytes
    else take tail (e8_scan process_target tail 0 (take tail bytes ++ replicate 6 0xE8))
      ++ drop tail bytes

pub lzx_preprocess : List ℕ → List ℕ
lzx_preprocess = lzx_e8_filter do_translate_target

pub lzx_postprocess : List ℕ → List ℕ
lzx_postprocess = lzx_e8_filter undo_translate_target

abbrev pub lzx_max_offset_slots : ℕ
lzx_max_offset_slots = 50

-- The first two offsets are below 0.
pub lzx_offset_slot_base : List ℤ
lzx_offset_slot_base =
    negsuc 1
    ∷ negsuc 0
    ∷ pos 0
    ∷ pos 1
    ∷ pos 2
    ∷ pos 4
    ∷ pos 6
    ∷ pos 10
    ∷ pos 14
    ∷ pos 22
    ∷ pos 30
    ∷ pos 46
    ∷ pos 62
    ∷ pos 94
    ∷ pos 126
    ∷ pos 190
    ∷ pos 254
    ∷ pos 382
    ∷ pos 510
    ∷ pos 766
    ∷ pos 1022
    ∷ pos 1534
    ∷ pos 2046
    ∷ pos 3070
    ∷ pos 4094
    ∷ pos 6142
    ∷ pos 8190
    ∷ pos 12286
    ∷ pos 16382
    ∷ pos 24574
    ∷ pos 32766
    ∷ pos 49150
    ∷ pos 65534
    ∷ pos 98302
    ∷ pos 131070
    ∷ pos 196606
    ∷ pos 262142
    ∷ pos 393214
    ∷ pos 524286
    ∷ pos 655358
    ∷ pos 786430
    ∷ pos 917502
    ∷ pos 1048574
    ∷ pos 1179646
    ∷ pos 1310718
    ∷ pos 1441790
    ∷ pos 1572862
    ∷ pos 1703934
    ∷ pos 1835006
    ∷ pos 1966078
    ∷ pos 2097150
    ∷ []

pub lzx_extra_offset_bits : List ℕ
lzx_extra_offset_bits =
    0 ∷ 0 ∷ 0 ∷ 0 ∷ 1 ∷ 1 ∷ 2 ∷ 2 ∷ 3 ∷ 3 ∷ 4 ∷ 4 ∷ 5 ∷ 5 ∷ 6 ∷ 6 ∷ 7 ∷ 7 ∷ 8 ∷ 8 ∷ 9 ∷ 9 ∷ 10 ∷ 10
    ∷ 11 ∷ 11 ∷ 12 ∷ 12 ∷ 13 ∷ 13 ∷ 14 ∷ 14 ∷ 15 ∷ 15 ∷ 16 ∷ 16 ∷ 17 ∷ 17 ∷ 17 ∷ 17 ∷ 17 ∷ 17 ∷ 17
    ∷ 17 ∷ 17 ∷ 17 ∷ 17 ∷ 17 ∷ 17 ∷ 17 ∷ []

-- `bsrw`: the position of the highest bit of a word that is not 0, by halving; 64 rounds are enough.
unfoldable pub bsrw : ℕ → ℕ → ℕ
bsrw zero v = 0
bsrw (suc fuel) v = let rest = suc (bsrw fuel (v / 2)) in if ltb v 2 then 0 else rest

-- include/wimlib/bitops.h
unfoldable pub ilog2_ceil : ℕ → ℕ
ilog2_ceil n = if leb n 1 then 0 else suc (bsrw 64 (n - 1))

abbrev pub lzx_min_window_order : ℕ
lzx_min_window_order = 15

abbrev pub lzx_max_window_size : ℕ
lzx_max_window_size = 2 ^ 21

pub lzx_get_window_order : ℕ → ℕ
lzx_get_window_order max_bufsize =
    if max_bufsize == 0 || ltb lzx_max_window_size max_bufsize
    then 0
    else max (ilog2_ceil max_bufsize) lzx_min_window_order

-- `max_offset >= lzx_offset_slot_base[n]`: both sides are compared as `u32`.
pub slot_reached : ℕ → ℕ → Bool
slot_reached max_offset n = leb (word32 (get_or lzx_offset_slot_base n (pos 0))) max_offset

-- The loop over `num_offset_slots`; the table ends after 21 more slots.
pub count_slots : ℕ → ℕ → ℕ → ℕ
count_slots zero max_offset n = n
count_slots (suc fuel) max_offset n =
    let rest = count_slots fuel max_offset (n + 1) in if slot_reached max_offset n then rest else n

pub lzx_get_num_main_syms : ℕ → ℕ
lzx_get_num_main_syms window_order =
    let max_offset = 2 ^ window_order - 2 - 1 in 256 + count_slots 21 max_offset 30 * 8
