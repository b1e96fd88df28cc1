-- ===== src/Console/Sources.antt =====
-- `Console` with its chain of sources, and the serial port (kern/console.h, kern/console.cc).
mod Examples
use Prim.Native.Nat.{bit_and, bit_or}
use chestnut.Base.{
  ℕ, zero, suc, ◌+◌, ◌-◌, ◌^◌, ◌≡◌, refl, sym, ap, ◌∙◌, Option, none, some, List, [], ◌∷◌, ◌++◌,
  map,
}
use mathlib.Core.List.{append_assoc, append-nil}
use chestnut.Console.Format.{Argument, vprintf}
use chestnut.Console.Format.Pieces.{Piece, AllPlain, Rendered, format, arguments, vprintf-Rendered}
use chestnut.Console.Screen.{VgaBuffer, write_byte}

-- A serial port: its number, and what was written to which port, the first first.
pub record SerialPort : Type 0 where
  pub port : ℕ
  pub outs : List (ℕ × ℕ)

unfoldable pub out_b : ℕ → ℕ → SerialPort → SerialPort
out_b p value s = record s { outs = s.outs ++ ((p, value) ∷ []) }

-- The constructor.
unfoldable pub new_serial_port : ℕ → SerialPort
new_serial_port p =
    let s : SerialPort = record { port = p; outs = [] } in
    out_b (p + 4) 11 (
      out_b (p + 2) 199
        (out_b (p + 3) 3 (out_b (p + 1) 0 (out_b p 3 (out_b (p + 3) 128 (out_b (p + 1) 0 s))))))

-- `EnableInterrupt` and `DisableInterrupt`, where `old` is what the port reads.
unfoldable pub enable_interrupt : ℕ → ℕ → SerialPort → SerialPort
enable_interrupt mode old s = out_b (s.port + 1) (bit_or old (2 ^ mode)) s

unfoldable pub disable_interrupt : ℕ → ℕ → SerialPort → SerialPort
disable_interrupt mode old s = out_b (s.port + 1) (bit_and old (2 ^ 8 - 1 - 2 ^ mode)) s

pub data Source : Type 0 where
  vga : VgaBuffer → Source
  serial : SerialPort → Source

-- The `WriteByte` of a source.
unfoldable pub source_write : ℕ → Source → Source
source_write ch (vga s) = vga (write_byte ch s)
source_write ch (serial s) = serial (out_b s.port ch s)

-- `AddSource`.
unfoldable pub add_source : Source → List Source → List Source
add_source src sources = src ∷ sources

-- `Console::WriteByte`.
unfoldable pub console_write : ℕ → List Source → List Source
console_write ch [] = []
console_write ch (s ∷ sources) = source_write ch s ∷ console_write ch sources

abbrev pub write_all : List ℕ → List Source → List Source
write_all [] sources = sources
write_all (ch ∷ chs) sources = write_all chs (console_write ch sources)

-- `printf`, which writes the bytes one by one to all sources.
unfoldable pub printf : List ℕ → List Argument → List Source → Option (List Source)
printf fmt args sources = elim (vprintf fmt args) [
  | none ↦ none
  | some out ↦ some (write_all out sources)
]

-- The constructor of a console, whose chain of sources is empty.
unfoldable pub new_console : List Source
new_console = []

-- `kprintf`, where `def_console` are the sources of the console of the kernel.
unfoldable pub kprintf : List ℕ → List Argument → List Source → Option (List Source)
kprintf fmt args def_console = elim (vprintf fmt args) [
  | none ↦ none
  | some out ↦ some (write_all out def_console)
]

-- A source after the bytes, as if it were alone.
abbrev pub source_bytes : List ℕ → Source → Source
source_bytes [] s = s
source_bytes (ch ∷ chs) s = source_bytes chs (source_write ch s)

each_none : (sources : List Source) → sources ≡ map (source_bytes []) sources
each_none [] = refl
each_none (s ∷ sources) = ap (λ (x : List Source). s ∷ x) (each_none sources)

each_next :
    (ch : ℕ) (chs : List ℕ) (sources : List Source)
    → map (source_bytes chs) (console_write ch sources) ≡ map (source_bytes (ch ∷ chs)) sources
unfolding console_write
each_next ch chs [] = refl
each_next ch chs (s ∷ sources) =
    ap (λ (x : List Source). source_bytes chs (source_write ch s) ∷ x) (each_next ch chs sources)

write_all_each :
    (chs : List ℕ) (sources : List Source) → write_all chs sources ≡ map (source_bytes chs) sources
write_all_each [] sources = each_none sources
write_all_each (ch ∷ chs) sources =
    write_all_each chs (console_write ch sources) ∙ each_next ch chs sources

-- The writes to its port that bytes make.
abbrev pub to_port : ℕ → List ℕ → List (ℕ × ℕ)
to_port p [] = []
to_port p (ch ∷ chs) = (p, ch) ∷ to_port p chs

serial_bytes :
    (chs : List ℕ) (p : ℕ) (outs : List (ℕ × ℕ))
    → source_bytes chs (serial (record { port = p; outs = outs }))
      ≡ serial (record { port = p; outs = outs ++ to_port p chs })
unfolding source_write out_b
serial_bytes [] p outs =
    ap (λ (x : List (ℕ × ℕ)). serial (record { port = p; outs = x })) (sym (append-nil outs))
serial_bytes (ch ∷ chs) p outs =
    serial_bytes chs p (outs ++ ((p, ch) ∷ []))
    ∙ ap (λ (x : List (ℕ × ℕ)). serial (record { port = p; outs = x }))
        (append_assoc outs ((p, ch) ∷ []) (to_port p chs))

-- `printf` of a format string made of plain characters and conversions with their arguments: every source
-- of the console gets all bytes of the output in their order, as if it were alone, and a serial port
-- has each of them written to its port.
pub printf-Rendered :
    (ps : List Piece) (sources : List Source)
    → AllPlain ps
    → (out : List ℕ) × Rendered ps out
      × (printf (format ps) (arguments ps) sources ≡ some (map (source_bytes out) sources))
      × ((p : ℕ) (outs : List (ℕ × ℕ))
          → source_bytes out (serial (record { port = p; outs = outs }))
            ≡ serial (record { port = p; outs = outs ++ to_port p out }))
unfolding printf
printf-Rendered ps sources plain =
    let (out, e, rendered) = vprintf-Rendered ps plain in
    (out, rendered, rw (printf, e) (ap some (write_all_each out sources)), serial_bytes out)
