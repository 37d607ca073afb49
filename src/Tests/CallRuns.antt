-- ===== src/Tests/CallRuns.antt =====
-- System calls on the screen and the keyboard.
use cxx_kernel.Base.{ℕ, ◌≡◌, refl, true, [], ◌∷◌, length, arith, Ensures}
use cxx_kernel.Files.{no_files}
use cxx_kernel.Keyboard.{Keyboard}
use cxx_kernel.Keyboard.Layouts.{fi}
use cxx_kernel.Video.{new_video}
use cxx_kernel.Syscalls.{
  FileCalls, Kernel, ret, minus_one, syscall_write, syscall_writev, read_input,
}
use cxx_kernel.Syscalls.Output.{syscall_writev-syscall_write}
use cxx_kernel.Syscalls.Input.{IsRead, read_input-IsRead}

-- A file system that refuses each call.
abbrev no_calls : FileCalls ℕ
no_calls = record {
  open_file = λ i n f d. (minus_one, d);
  read = λ i fd n d. (minus_one, [], d);
  write = λ i fd bs d. (minus_one, d);
  close = λ i fd d. (minus_one, d);
  set_fcntl = λ i fd n d. (minus_one, d);
  get_fcntl = λ i fd d. (minus_one, d);
}

abbrev fi_keyboard : Keyboard
fi_keyboard = record {
  layout_code = fi;
  mods = 0;
  keybuffer = λ i. 0;
  write = 0;
  read = 0;
  printed = [];
}

abbrev kernel : Kernel ℕ
kernel = record {
  video = new_video true (λ i. 0);
  keyboard = fi_keyboard;
  vfs = record { filesystems = []; mounts = [] };
  disc = (no_files, 0);
}

syscall_writev-syscall_write_example :
    syscall_writev no_calls 1 ((72 ∷ 105 ∷ []) ∷ [] ∷ (10 ∷ []) ∷ []) kernel
    ≡ syscall_write no_calls 1 (72 ∷ 105 ∷ 10 ∷ []) kernel
syscall_writev-syscall_write_example =
    syscall_writev-syscall_write no_calls 1 ((72 ∷ 105 ∷ []) ∷ [] ∷ (10 ∷ []) ∷ []) kernel refl
      (omega arith, (omega arith, (omega arith, tt)))

-- The keys a, b and then an o with dots, of which the last has two bytes.
read_input-IsRead_example :
    Ensures
      (read_input no_calls 9 3 ((0x1E ∷ 0x30 ∷ []) ∷ (0x27 ∷ []) ∷ []) kernel)
      (λ r. (r.0 ≡ ret (length r.1.bytes)) × IsRead 3 0 r.1)
read_input-IsRead_example =
    read_input-IsRead no_calls 9 3 ((0x1E ∷ 0x30 ∷ []) ∷ (0x27 ∷ []) ∷ []) kernel (omega arith)
