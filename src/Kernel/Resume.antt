-- ===== src/Kernel/Resume.antt =====
-- What the caller of a system call does next.
--
-- A call ends where the processor goes to another process, or where it returns. In the first case
-- the caller goes on when it is elected again, from the place that a `Resume` names.
use kernel_genesis_os.Base.{ℤ, Bool, true, false}

pub data Resume : Type 0 where
  returns : ℤ → Resume  -- nothing is left but to return
  returns_with : ℤ → ℤ → Resume  -- the same, and the second number is written for the caller
  never : Resume  -- exit does not return
  after_wait : Resume  -- wait: reads operationStatus
  after_psend : Resume  -- psend on a full queue: reads operationStatus
  after_preceive : Bool → Resume  -- preceive on an empty queue: reads operationStatus
  after_cons_read : Resume  -- cons_read: looks at the input again
  after_waitpid : ℤ → Bool → Resume  -- waitpid: looks at its children again

-- `*p = value` where the caller gave a pointer `p`, and the return of `code`.
abbrev pub returns_to : Bool → ℤ → ℤ → Resume
returns_to true code value = returns_with code value
returns_to false code value = returns code
