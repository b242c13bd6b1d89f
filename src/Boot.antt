-- ===== src/Boot.antt =====
-- kernel/src/main.cpp: the checks of the boot answers, the constructors, and how the memory is set up.
--
-- The bootloader's answers are arguments; a null response is `none`. A constructor is a number, and
-- a call of it an entry of the list of calls. Log lines are left out. `kmain` calls what the other
-- modules model, one after the other; of that the memory part is modelled here.
pub mod Start
pub mod Mapped
use epsilon_os.Base.{
  ℕ, ◌+◌, Bool, true, false, not, ◌||◌, Option, none, some, List, [], ◌∷◌, ◌++◌, Result, ok, stop,
  halted, ◌>>=◌, if◌then◌else◌,
}
use epsilon_os.Device.Interrupts.{Handlers, no_handlers}
use epsilon_os.Memory.Address.{null_address}
use epsilon_os.Memory.Pmm.{Pmm, Region}
use epsilon_os.Memory.Pmm
use epsilon_os.Memory.PageTable.{Store}
use epsilon_os.Memory.AddressSpace.{Space}
use epsilon_os.Memory.AddressSpace.Kernel.{Image, init_kernel}

-- The responses to the requests, in the order in which they are tested.
pub record Responses : Type 0 where
  pub hhdm : Option ℕ
  pub bootloader_info : Option ℕ
  pub rsdp : Option ℕ
  pub modules : Option ℕ
  pub memmap : Option ℕ
  pub kernel_address : Option ℕ
  pub kernel_file : Option ℕ
  pub framebuffers : Option ℕ
  pub smp : Option ℕ

abbrev pub missing : Option ℕ → Bool
missing none = true
missing (some a) = false

-- `CPU::hnr` halts the processor for good.
unfoldable pub verify_boot : Bool → Responses → Result (Unit {0})
verify_boot revision_supported r =
    if not revision_supported
    then stop halted
    else if missing r.hhdm
        || missing r.bootloader_info
        || missing r.rsdp
        || missing r.modules
        || missing r.memmap
        || missing r.kernel_address
        || missing r.kernel_file
        || missing r.framebuffers
        || missing r.smp
    then stop halted
    else ok tt

-- `init_ctors`: the constructors are called in the order of the array.
unfoldable pub init_ctors : List ℕ → List ℕ → List ℕ
init_ctors [] calls = calls
init_ctors (c ∷ cs) calls = init_ctors cs (calls ++ (c ∷ []))

-- The kernel's space before anything is set up.
abbrev pub blank_space : Store → Pmm → Space
blank_space store p = record {
  vm = record { store = store; pmm = p };
  phys_pml4 = null_address;
  pml4 = 0;
  flushed = [];
  cr3 = 0;
}

-- "Initialize memory" of `kmain`.
unfoldable pub init_memory : ℕ → Image → List Region → Store → Result (Space × Handlers)
init_memory hhdm i memmap store =
    Pmm.init memmap >>= λ p. init_kernel hhdm i no_handlers (blank_space store p)
