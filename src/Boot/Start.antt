-- ===== src/Boot/Start.antt =====
-- kernel/main.c: the first steps of `init`, up to the message about the boot loader. `none` is a NULL for
-- the framebuffer's tag, or a wait of the serial port.
pub mod Laws
mod Tests
use osakauss.Common.{ℕ, List, [], ◌∷◌, ◌++◌, Option, none, some, ◌==◌, if◌then◌else◌}
use osakauss.Format.{codes, text}
use osakauss.Klibc.Mem.{Ptr}
use osakauss.Graphics.{framebuffer_init}
use osakauss.Log.{Log, log_both, require_log, logf}
use osakauss.Boot.{Tag, BootInfo, framebuffer_id, stivale2_get_tag}

-- `struct stivale2_struct_tag_framebuffer`, the fields that are read
pub record FramebufferTag : Type 0 where
  pub framebuffer_addr : ℕ
  pub framebuffer_width : ℕ
  pub framebuffer_height : ℕ
  pub framebuffer_pitch : ℕ
  pub framebuffer_bpp : ℕ

abbrev pub banner : List ℕ
banner = codes "   ...:::   Osakauss v0.0.1   :::...\n\n"

-- the message about the boot loader; the bytes 4 and 1 change the colour
abbrev pub loader_message : List ℕ
loader_message =
    codes "bootloader->["
    ++ (4
        ∷ (codes "%s"
            ++ (1
                ∷ (codes "]\nbootloader-version->[" ++ (4 ∷ (codes "%s" ++ (1 ∷ codes "]\n\n")))))))

-- `framebufferInit` with the fields of a tag
abbrev pub with_framebuffer : Log → FramebufferTag → Log
with_framebuffer l tag =
    let (fb, m) =
      framebuffer_init l.tty.framebuffer l.tty.mem tag.framebuffer_addr tag.framebuffer_addr
        tag.framebuffer_width tag.framebuffer_height tag.framebuffer_bpp tag.framebuffer_pitch in
    record l { tty = record l.tty { framebuffer = fb; mem = m } }

unfoldable pub greet : (ℕ → ℕ → ℕ) → BootInfo → Log → Option Log
greet font info l = elim (logf font l banner []) [
  | none ↦ none
  | some l' ↦ logf font l' loader_message (text info.brand ∷ text info.version ∷ [])
]

-- What `require_log` returns is not looked at.
unfoldable pub start_log :
    (ℕ → ℕ → ℕ) → ℕ → (Ptr → Tag) → (Ptr → FramebufferTag) → BootInfo → Log → Option Log
start_log font fuel tags framebuffers info l =
    elim (stivale2_get_tag fuel tags info framebuffer_id) [
      | none ↦ none
      | some p ↦
          let started : Option Log =
            elim (require_log log_both (with_framebuffer l (framebuffers p))) [
              | none ↦ none
              | some answer ↦ greet font info answer.1
            ] in
          if p == 0 then none else started
    ]
