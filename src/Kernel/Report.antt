-- ===== src/Kernel/Report.antt =====
-- report_cpu_details of src/kernel.c. Call n of kprintf finds `stacks n` in its own buffer and `below n`
-- in that of tprintf; ecx is what the register held where cpuid does not set it.
use bloreos.Base.{
  ℕ, suc, ◌≡◌, subst, ◌==◌, ◌&&◌, if◌then◌else◌, List, [], ◌∷◌, ◌++◌, Option, some, Ram, ◌>>=◌,
  codes, bind_some,
}
use bloreos.Str.Format.{int_arg, text_arg}
use bloreos.Ps2.{Io}
use bloreos.Terminal.{Terminal}
use bloreos.Terminal.Input.{string_at}
use bloreos.Kprintf.{kprintf}
use bloreos.Kprintf.Lines.{as_int, Line, print_lines}
use bloreos.Cpu.{
  Cpuid, Frequency, get_cpu_vendor, get_cpu_brand, get_cpu_topology, get_cpu_frequency,
}
use bloreos.Kernel.Start.{Prints, quiet, printed}

unfoldable pub vendor_line : Cpuid → ℕ → Line
vendor_line cpuid ecx =
    (codes "CPU Vendor: %s\n", text_arg (string_at 13 (get_cpu_vendor cpuid ecx 0 (λ i. 0)) 0) ∷ [])

unfoldable pub brand_line : Cpuid → ℕ → Line
brand_line cpuid ecx =
    (codes "CPU Brand: %s\n", text_arg (string_at 49 (get_cpu_brand cpuid ecx 0 (λ i. 0)) 0) ∷ [])

unfoldable pub topology_lines : ℕ × ℕ → List Line
unfolding as_int
topology_lines (per_core, total) =
    (codes "Logical Processors Per Core: %d\n", int_arg (as_int per_core) ∷ [])
    ∷ (codes "Total Logical Processors: %d\n", int_arg (as_int total) ∷ [])
    ∷ []

unfoldable pub frequency_lines : Frequency → List Line
unfolding as_int
frequency_lines f =
    if f.base_mhz == 0 && (f.max_mhz == 0) && (f.bus_mhz == 0)
    then (codes "CPU Frequency (0x16) not supported.\n", []) ∷ []
    else (codes "Base Frequency: %d\n", int_arg (as_int f.base_mhz) ∷ [])
      ∷ (codes "Max Frequency: %d\n", int_arg (as_int f.max_mhz) ∷ [])
      ∷ (codes "Bus Frequency: %d\n", int_arg (as_int f.bus_mhz) ∷ [])
      ∷ []

-- The calls in their order; `none` has found no end of the levels of the topology in `left` of them.
unfoldable pub report_lines : ℕ → Cpuid → ℕ → Option (List Line)
unfolding vendor_line brand_line topology_lines frequency_lines
report_lines left cpuid ecx = get_cpu_topology left cpuid >>= λ counts. some (
    vendor_line cpuid ecx
    ∷ brand_line cpuid ecx
    ∷ (topology_lines counts ++ frequency_lines (get_cpu_frequency cpuid ecx)))

unfoldable pub report_cpu_details :
    (ℕ → Ram) → (ℕ → Ram) → ℕ → Cpuid → ℕ → Io → Terminal → Option (Io × Terminal)
unfolding report_lines print_lines
report_cpu_details stacks below left cpuid ecx s t =
    report_lines left cpuid ecx >>= λ lines. print_lines stacks below 0 lines s t

print_lines-Prints :
    (lines : List Line) (stacks below : ℕ → Ram) (n : ℕ) (s s' : Io) (t t' : Terminal)
    → print_lines stacks below n lines s t ≡ some (s', t')
    → Prints s' t' s t
unfolding print_lines
print_lines-Prints [] stacks below n s s' t t' e =
    let same : ◌≡◌ {A = Io × Terminal} (s, t) (s', t') = cc in
    subst (λ p. Prints p.0 p.1 s t) same quiet
print_lines-Prints ((format, args) ∷ lines) stacks below n s s' t t' e =
    let (both, done, rest) =
      bind_some (kprintf (stacks n) (below n) format args s t) _ (s', t') e in
    printed (stacks n) (below n) format args done
      (print_lines-Prints lines stacks below (suc n) both.0 s' both.1 t' rest)

-- A report that ends is a sequence of calls of kprintf that return, as the start of the kernel allows.
pub report_cpu_details-Prints :
    (stacks below : ℕ → Ram) (left ecx : ℕ) (cpuid : Cpuid) (s s' : Io) (t t' : Terminal)
    → report_cpu_details stacks below left cpuid ecx s t ≡ some (s', t')
    → Prints s' t' s t
unfolding report_cpu_details
report_cpu_details-Prints stacks below left ecx cpuid s s' t t' e =
    let (lines, made, rest) = bind_some (report_lines left cpuid ecx) _ (s', t') e in
    print_lines-Prints lines stacks below 0 s s' t t' rest
