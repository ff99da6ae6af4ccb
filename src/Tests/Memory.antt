-- ===== src/Tests/Memory.antt =====
-- The theorems on bytes, texts and user addresses at concrete arguments.
use kernel_genesis_os.Base.{◌+◌, ◌≡◌, pos, negsuc, true, false, [], arith, inl}
use kernel_genesis_os.Kernel.{value}
use kernel_genesis_os.Kernel.Result.{ok}
use kernel_genesis_os.Kernel.Resume.{returns}
use kernel_genesis_os.Syscall.{Devices, Registers, waitpid_, traitant_it_49_switch}
use kernel_genesis_os.Syscall.Protection.{waitpid_result, foreign_address}
use kernel_genesis_os.Tests.Screen.{console}
use kernel_genesis_os.Tests.{busy}

abbrev surroundings : Devices
surroundings = record {
  ticks = 12;
  text_at = λ a. [];
  memory = record {
    proc = true;
    user = true;
    kernel = true;
    user_words = λ i. 0;
    kernel_words = λ i. value 0;
  };
  sem_memory = true;
  layout = record { chainage = λ p. pos (1000 + p); activables = pos 2000; low_word = pos 0 };
  clavier = record {
    tampon = λ i. pos 0;
    ptampon = 0;
    read = false;
    history = λ i. [];
    index_history = 0;
    current_idex_history = 0;
    console = console;
    kernel = busy;
  };
  behind = [];
  drive = λ b r k. returns (pos 0);
}

-- waitpid with its result at the address 4096, which is the kernel's.
abbrev registers : Registers
registers = record { ebx = negsuc 0; ecx = pos 4096; edx = pos 0; esi = pos 0; edi = pos 0 }

foreign_address_example :
    traitant_it_49_switch surroundings waitpid_ registers busy ≡ ok (busy, returns (negsuc 0))
foreign_address_example =
    foreign_address surroundings waitpid_ registers (pos 4096) busy waitpid_result
      (λ e. ground arith, inl (omega arith))
