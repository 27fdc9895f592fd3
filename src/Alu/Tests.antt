-- ===== src/Alu/Tests.antt =====
-- Runs of the ALU at concrete inputs.
use em68030_win_ui3cpp.Common.{◌+◌, ◌≡◌, arith, true, false, if◌then◌else◌}
use em68030_win_ui3cpp.Common.Int.{pos, ◌+ℤ◌, ◌-ℤ◌}
use em68030_win_ui3cpp.Alu.Size.{byte, word}
use em68030_win_ui3cpp.Alu.Flags.{flags_of}
use em68030_win_ui3cpp.Alu.AddSub.{add, sub}
use em68030_win_ui3cpp.Alu.Shifts.{shift_left, logical_shift_right}
use em68030_win_ui3cpp.Alu.Rotates.{rotate_left, rotate_right}
use em68030_win_ui3cpp.Alu.Bcd.{add_bcd}
use em68030_win_ui3cpp.Alu.Carry.{Reports, signed, add_lem, sub_lem}
use em68030_win_ui3cpp.Alu.Decimal.{IsBcd, decimal, add_bcd_lem}
use em68030_win_ui3cpp.Alu.Shifting.{shift_left_lem}
use em68030_win_ui3cpp.Alu.Rotating.{rotate_right-rotate_left}

add_example :
    ((add byte 0x7f 0x81 0x10 true).result + 0x100 ≡ 0x101)
    × Reports byte
        (add byte 0x7f 0x81 0x10 true)
        true
        (signed byte 0x7f +ℤ signed byte 0x81 +ℤ pos 1)
add_example = add_lem byte 0x7f 0x81 0x10 true (omega arith) (omega arith)

sub_example :
    ((sub word 1 0x8000 0 false).result + 0x8000 + 0 ≡ 1 + 0x10000)
    × Reports word (sub word 1 0x8000 0 false) true (signed word 1 -ℤ signed word 0x8000 -ℤ pos 0)
sub_example = sub_lem word 1 0x8000 0 false (omega arith) (omega arith)

add_bcd_example :
    let out = add_bcd 0x58 0x67 0x10 in
    IsBcd out.result
    × ((flags_of out.ccr).x ≡ (flags_of out.ccr).c)
    × (decimal out.result + (if (flags_of out.ccr).c then 100 else 0) ≡ 126)
add_bcd_example = add_bcd_lem 0x58 0x67 0x10 (omega arith, omega arith) (omega arith, omega arith)

-- 0xC1 shifted left by one: both the sign and the last bit shifted out are 1.
shift_left_example :
    ((shift_left byte 0xc1 1).result ≡ 0x82)
    × (flags_of (shift_left byte 0xc1 1).ccr
        ≡ record { c = true; v = false; z = false; n = true; x = true })
unfolding shift_left em68030_win_ui3cpp.Alu.Shifts.shift_left_loop
shift_left_example = shift_left_lem byte 0xc1 1 (omega arith)

rotate_right-rotate_left_example :
    (rotate_right byte (rotate_left byte 0x96 11).result 11).result ≡ 0x96
rotate_right-rotate_left_example = rotate_right-rotate_left byte 0x96 11 (omega arith)
