-- ===== src/Idt/Faults.antt =====
-- The names of the faults that _handle_fault of src/idt.c prints.
use bloreos.Base.{ℕ, zero, suc, List, [], ◌∷◌, Option, some, none}

abbrev divide_error_exception_text : List ℕ
divide_error_exception_text =
    b'D' ∷ b'i' ∷ b'v' ∷ b'i' ∷ b'd' ∷ b'e' ∷ b' ' ∷ b'E' ∷ b'r' ∷ b'r' ∷ b'o' ∷ b'r' ∷ b' ' ∷ b'E'
    ∷ b'x' ∷ b'c' ∷ b'e' ∷ b'p' ∷ b't' ∷ b'i' ∷ b'o' ∷ b'n' ∷ []

abbrev debug_exception_text : List ℕ
debug_exception_text =
    b'D' ∷ b'e' ∷ b'b' ∷ b'u' ∷ b'g' ∷ b' ' ∷ b'E' ∷ b'x' ∷ b'c' ∷ b'e' ∷ b'p' ∷ b't' ∷ b'i' ∷ b'o'
    ∷ b'n' ∷ []

abbrev nmi_interrupt_text : List ℕ
nmi_interrupt_text =
    b'N' ∷ b'M' ∷ b'I' ∷ b' ' ∷ b'I' ∷ b'n' ∷ b't' ∷ b'e' ∷ b'r' ∷ b'r' ∷ b'u' ∷ b'p' ∷ b't' ∷ []

abbrev breakpoint_exception_text : List ℕ
breakpoint_exception_text =
    b'B' ∷ b'r' ∷ b'e' ∷ b'a' ∷ b'k' ∷ b'p' ∷ b'o' ∷ b'i' ∷ b'n' ∷ b't' ∷ b' ' ∷ b'E' ∷ b'x' ∷ b'c'
    ∷ b'e' ∷ b'p' ∷ b't' ∷ b'i' ∷ b'o' ∷ b'n' ∷ []

abbrev overflow_exception_text : List ℕ
overflow_exception_text =
    b'O' ∷ b'v' ∷ b'e' ∷ b'r' ∷ b'f' ∷ b'l' ∷ b'o' ∷ b'w' ∷ b' ' ∷ b'E' ∷ b'x' ∷ b'c' ∷ b'e' ∷ b'p'
    ∷ b't' ∷ b'i' ∷ b'o' ∷ b'n' ∷ []

abbrev bound_range_exceeded_exception_text : List ℕ
bound_range_exceeded_exception_text =
    b'B' ∷ b'O' ∷ b'U' ∷ b'N' ∷ b'D' ∷ b' ' ∷ b'R' ∷ b'a' ∷ b'n' ∷ b'g' ∷ b'e' ∷ b' ' ∷ b'E' ∷ b'x'
    ∷ b'c' ∷ b'e' ∷ b'e' ∷ b'd' ∷ b'e' ∷ b'd' ∷ b' ' ∷ b'E' ∷ b'x' ∷ b'c' ∷ b'e' ∷ b'p' ∷ b't'
    ∷ b'i' ∷ b'o' ∷ b'n' ∷ []

abbrev invalid_opcode_exception_text : List ℕ
invalid_opcode_exception_text =
    b'I' ∷ b'n' ∷ b'v' ∷ b'a' ∷ b'l' ∷ b'i' ∷ b'd' ∷ b' ' ∷ b'O' ∷ b'p' ∷ b'c' ∷ b'o' ∷ b'd' ∷ b'e'
    ∷ b' ' ∷ b'E' ∷ b'x' ∷ b'c' ∷ b'e' ∷ b'p' ∷ b't' ∷ b'i' ∷ b'o' ∷ b'n' ∷ []

abbrev device_not_available_exception_text : List ℕ
device_not_available_exception_text =
    b'D' ∷ b'e' ∷ b'v' ∷ b'i' ∷ b'c' ∷ b'e' ∷ b' ' ∷ b'N' ∷ b'o' ∷ b't' ∷ b' ' ∷ b'A' ∷ b'v' ∷ b'a'
    ∷ b'i' ∷ b'l' ∷ b'a' ∷ b'b' ∷ b'l' ∷ b'e' ∷ b' ' ∷ b'E' ∷ b'x' ∷ b'c' ∷ b'e' ∷ b'p' ∷ b't'
    ∷ b'i' ∷ b'o' ∷ b'n' ∷ []

abbrev double_fault_exception_text : List ℕ
double_fault_exception_text =
    b'D' ∷ b'o' ∷ b'u' ∷ b'b' ∷ b'l' ∷ b'e' ∷ b' ' ∷ b'F' ∷ b'a' ∷ b'u' ∷ b'l' ∷ b't' ∷ b' ' ∷ b'E'
    ∷ b'x' ∷ b'c' ∷ b'e' ∷ b'p' ∷ b't' ∷ b'i' ∷ b'o' ∷ b'n' ∷ []

abbrev coprocessor_segment_overrun_text : List ℕ
coprocessor_segment_overrun_text =
    b'C' ∷ b'o' ∷ b'p' ∷ b'r' ∷ b'o' ∷ b'c' ∷ b'e' ∷ b's' ∷ b's' ∷ b'o' ∷ b'r' ∷ b' ' ∷ b'S' ∷ b'e'
    ∷ b'g' ∷ b'm' ∷ b'e' ∷ b'n' ∷ b't' ∷ b' ' ∷ b'O' ∷ b'v' ∷ b'e' ∷ b'r' ∷ b'r' ∷ b'u' ∷ b'n' ∷ []

abbrev invalid_tss_exception_text : List ℕ
invalid_tss_exception_text =
    b'I' ∷ b'n' ∷ b'v' ∷ b'a' ∷ b'l' ∷ b'i' ∷ b'd' ∷ b' ' ∷ b'T' ∷ b'S' ∷ b'S' ∷ b' ' ∷ b'E' ∷ b'x'
    ∷ b'c' ∷ b'e' ∷ b'p' ∷ b't' ∷ b'i' ∷ b'o' ∷ b'n' ∷ []

abbrev segment_not_present_text : List ℕ
segment_not_present_text =
    b'S' ∷ b'e' ∷ b'g' ∷ b'm' ∷ b'e' ∷ b'n' ∷ b't' ∷ b' ' ∷ b'N' ∷ b'o' ∷ b't' ∷ b' ' ∷ b'P' ∷ b'r'
    ∷ b'e' ∷ b's' ∷ b'e' ∷ b'n' ∷ b't' ∷ []

abbrev stack_fault_exception_text : List ℕ
stack_fault_exception_text =
    b'S' ∷ b't' ∷ b'a' ∷ b'c' ∷ b'k' ∷ b' ' ∷ b'F' ∷ b'a' ∷ b'u' ∷ b'l' ∷ b't' ∷ b' ' ∷ b'E' ∷ b'x'
    ∷ b'c' ∷ b'e' ∷ b'p' ∷ b't' ∷ b'i' ∷ b'o' ∷ b'n' ∷ []

abbrev general_protection_exception_text : List ℕ
general_protection_exception_text =
    b'G' ∷ b'e' ∷ b'n' ∷ b'e' ∷ b'r' ∷ b'a' ∷ b'l' ∷ b' ' ∷ b'P' ∷ b'r' ∷ b'o' ∷ b't' ∷ b'e' ∷ b'c'
    ∷ b't' ∷ b'i' ∷ b'o' ∷ b'n' ∷ b' ' ∷ b'E' ∷ b'x' ∷ b'c' ∷ b'e' ∷ b'p' ∷ b't' ∷ b'i' ∷ b'o'
    ∷ b'n' ∷ []

abbrev page_fault_exception_text : List ℕ
page_fault_exception_text =
    b'P' ∷ b'a' ∷ b'g' ∷ b'e' ∷ b' ' ∷ b'F' ∷ b'a' ∷ b'u' ∷ b'l' ∷ b't' ∷ b' ' ∷ b'E' ∷ b'x' ∷ b'c'
    ∷ b'e' ∷ b'p' ∷ b't' ∷ b'i' ∷ b'o' ∷ b'n' ∷ []

abbrev unknown_text : List ℕ
unknown_text = b'U' ∷ b'n' ∷ b'k' ∷ b'n' ∷ b'o' ∷ b'w' ∷ b'n' ∷ []

abbrev x87_fpu_floating_point_error_text : List ℕ
x87_fpu_floating_point_error_text =
    b'x' ∷ b'8' ∷ b'7' ∷ b' ' ∷ b'F' ∷ b'P' ∷ b'U' ∷ b' ' ∷ b'F' ∷ b'l' ∷ b'o' ∷ b'a' ∷ b't' ∷ b'i'
    ∷ b'n' ∷ b'g' ∷ b'-' ∷ b'P' ∷ b'o' ∷ b'i' ∷ b'n' ∷ b't' ∷ b' ' ∷ b'E' ∷ b'r' ∷ b'r' ∷ b'o'
    ∷ b'r' ∷ []

abbrev alignment_check_exception_text : List ℕ
alignment_check_exception_text =
    b'A' ∷ b'l' ∷ b'i' ∷ b'g' ∷ b'n' ∷ b'm' ∷ b'e' ∷ b'n' ∷ b't' ∷ b' ' ∷ b'C' ∷ b'h' ∷ b'e' ∷ b'c'
    ∷ b'k' ∷ b' ' ∷ b'E' ∷ b'x' ∷ b'c' ∷ b'e' ∷ b'p' ∷ b't' ∷ b'i' ∷ b'o' ∷ b'n' ∷ []

abbrev machine_check_exception_text : List ℕ
machine_check_exception_text =
    b'M' ∷ b'a' ∷ b'c' ∷ b'h' ∷ b'i' ∷ b'n' ∷ b'e' ∷ b'-' ∷ b'C' ∷ b'h' ∷ b'e' ∷ b'c' ∷ b'k' ∷ b' '
    ∷ b'E' ∷ b'x' ∷ b'c' ∷ b'e' ∷ b'p' ∷ b't' ∷ b'i' ∷ b'o' ∷ b'n' ∷ []

abbrev simd_floating_point_exception_text : List ℕ
simd_floating_point_exception_text =
    b'S' ∷ b'I' ∷ b'M' ∷ b'D' ∷ b' ' ∷ b'F' ∷ b'l' ∷ b'o' ∷ b'a' ∷ b't' ∷ b'i' ∷ b'n' ∷ b'g' ∷ b'-'
    ∷ b'P' ∷ b'o' ∷ b'i' ∷ b'n' ∷ b't' ∷ b' ' ∷ b'E' ∷ b'x' ∷ b'c' ∷ b'e' ∷ b'p' ∷ b't' ∷ b'i'
    ∷ b'o' ∷ b'n' ∷ []

abbrev virtualization_exception_text : List ℕ
virtualization_exception_text =
    b'V' ∷ b'i' ∷ b'r' ∷ b't' ∷ b'u' ∷ b'a' ∷ b'l' ∷ b'i' ∷ b'z' ∷ b'a' ∷ b't' ∷ b'i' ∷ b'o' ∷ b'n'
    ∷ b' ' ∷ b'E' ∷ b'x' ∷ b'c' ∷ b'e' ∷ b'p' ∷ b't' ∷ b'i' ∷ b'o' ∷ b'n' ∷ []

abbrev control_protection_exception_text : List ℕ
control_protection_exception_text =
    b'C' ∷ b'o' ∷ b'n' ∷ b't' ∷ b'r' ∷ b'o' ∷ b'l' ∷ b' ' ∷ b'P' ∷ b'r' ∷ b'o' ∷ b't' ∷ b'e' ∷ b'c'
    ∷ b't' ∷ b'i' ∷ b'o' ∷ b'n' ∷ b' ' ∷ b'E' ∷ b'x' ∷ b'c' ∷ b'e' ∷ b'p' ∷ b't' ∷ b'i' ∷ b'o'
    ∷ b'n' ∷ []

abbrev pub fault_names : List (List ℕ)
fault_names =
    divide_error_exception_text ∷ debug_exception_text ∷ nmi_interrupt_text
    ∷ breakpoint_exception_text ∷ overflow_exception_text ∷ bound_range_exceeded_exception_text
    ∷ invalid_opcode_exception_text ∷ device_not_available_exception_text
    ∷ double_fault_exception_text ∷ coprocessor_segment_overrun_text ∷ invalid_tss_exception_text
    ∷ segment_not_present_text ∷ stack_fault_exception_text ∷ general_protection_exception_text
    ∷ page_fault_exception_text ∷ unknown_text ∷ x87_fpu_floating_point_error_text
    ∷ alignment_check_exception_text ∷ machine_check_exception_text
    ∷ simd_floating_point_exception_text ∷ virtualization_exception_text
    ∷ control_protection_exception_text ∷ []

-- The name that is printed; `none` is an entry of the array that is never assigned, or is behind its
-- end.
unfoldable pub fault_name : ℕ → Option (List ℕ)
fault_name vector = entry vector fault_names
  where
    entry : ℕ → List (List ℕ) → Option (List ℕ)
    entry vector [] = none
    entry zero (s ∷ rest) = some s
    entry (suc i) (s ∷ rest) = entry i rest
