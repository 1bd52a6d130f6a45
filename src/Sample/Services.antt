-- ===== src/Sample/Services.antt =====
-- Pool services and a system API that do what the theorems rely on, and a TPM whose PCR 0 of the
-- SHA-1 bank alone is allocated. A SAPI context is the address of its TCTI context.
use tpm2_tcti_uefi.Base.{
  ℕ, zero, suc, ◌≡◌, ◌≤◌, ◌+◌, ◌-◌, ◌^◌, Bool, true, false, List, [], ◌∷◌, length, replicate, inl,
  inr, arith, refl,
}
use tpm2_tcti_uefi.Sample.{platform, machine, tpm}
use tpm2_tcti_uefi.Tcti.{Context, null, transmitting}
use tpm2_tcti_uefi.Util.Pcr.{Selection, Selections, is_pcr_selected}
use tpm2_tcti_uefi.Pool.{World, contains}
use tpm2_tcti_uefi.Tss2.External.{Library, IsLibrary}
use tpm2_tcti_uefi.Tss2.Commands.{Sized, Digests, Commands, AreKeeping}
use tpm2_tcti_uefi.Programs.PcrRound.{asked}
use tpm2_tcti_uefi.Programs.PcrEnd.{Answers, AnswersReads}

-- A new address is above all live ones.
abbrev total : List ℕ → ℕ
total [] = 0
total (a ∷ live) = a + total live

contains-total : (a : ℕ) (live : List ℕ) → contains a live ≡ true → a ≤ total live
unfolding contains
contains-total a [] h = absurd (ground arith)
contains-total a (b ∷ live) h = ground (arith, contains-total a live)

abbrev pub zero_context : ℕ → Context
zero_context n = record {
  magic = 0;
  version = 0;
  transmit_entry = null;
  receive_entry = null;
  finalize_entry = null;
  cancel_entry = null;
  get_poll_handles_entry = null;
  set_locality_entry = null;
  make_sticky_entry = null;
  state = transmitting;
  size = 0;
  cmd_buf = replicate n 0;
}

abbrev pub library : Library ℕ ℕ
library = record {
  allocate_pool = λ live n g. (suc (total live), g);
  free_pool = λ a g. g;
  fresh_tcti = λ n g. zero_context (n - 88);
  fresh_sapi = λ n g. 0;
  finalize_calls = λ c. true;
  sys_get_context_size = λ n. 512;
  sys_initialize = λ n a c v x. (0, a);
  sys_get_tcti_context = λ x old. (0, x);
  sys_finalize = λ x. x;
}

-- The same, but no SAPI context can be initialised.
abbrev pub failing_library : Library ℕ ℕ
failing_library = record library { sys_initialize = λ n a c v x. (0x80001, x) }

length-zeros : (n : ℕ) → length {A = ℕ} (replicate n 0) ≡ n
length-zeros zero = refl
length-zeros (suc n) = omega (arith, length-zeros n)

pub library-IsLibrary : IsLibrary platform library
library-IsLibrary = record {
  fresh = λ live n g z. ground (arith, contains-total (suc (total live)) live);
  fresh_room = λ n g h. length-zeros (n - 88);
  initialize_stores = λ n a c v x old h. refl;
}

pub failing_library-IsLibrary : IsLibrary platform failing_library
failing_library-IsLibrary = record {
  fresh = λ live n g z. ground (arith, contains-total (suc (total live)) live);
  fresh_room = λ n g h. length-zeros (n - 88);
  initialize_stores = λ n a c v x old h. absurd (omega (arith, h));
}

abbrev random : Sized
random = record { size = 32; buffer = replicate 32 5 }

abbrev bank_of_sha1 : Selection
bank_of_sha1 = record { hash = 4; sizeof_select = 3; pcr_select = 1 ∷ 0 ∷ 0 ∷ 0 ∷ [] }

-- What TPM2_PCR_Read returns if PCR 0 is asked for, or is not.
abbrev selection_if : Bool → Selections
selection_if true = record { count = 1; banks = bank_of_sha1 ∷ [] }
selection_if false = record { count = 0; banks = [] }

abbrev digests_if : Bool → Digests
digests_if true = record { count = 1; digests = record { size = 20; buffer = replicate 20 0 } ∷ [] }
digests_if false = record { count = 0; digests = [] }

abbrev pub commands : Commands ℕ ℕ
commands = record {
  constant = λ name. 7;
  efi_aborted = 2 ^ 63 + 21;
  uninitialised_buffer = replicate 1024 9;
  get_random = λ n old x c s. ((0, random, x, c), s);
  nv_define_space = λ h a v i x c s. ((0, tt, x, c), s);
  nv_write = λ h i a v o x c s. ((7, tt, x, c), s);
  nv_undefine_space = λ h i a x c s. ((0, tt, x, c), s);
  pcr_read = λ b u o d x c s.
      let wanted = asked b.count b.banks 4 0 in
      ((0, (u, selection_if wanted, digests_if wanted), x, c), s);
  get_properties = λ a b n m old x c s. ((0x101, (m, old), x, c), s);
}

pub commands-AreKeeping : AreKeeping library commands
commands-AreKeeping = record {
  get_random_keeps = λ n old x c s. (λ o. refl, refl);
  nv_define_space_keeps = λ h a v i x c s. (λ o. refl, refl);
  nv_write_keeps = λ h i a v n x c s. (λ o. refl, refl);
  nv_undefine_space_keeps = λ h i a x c s. (λ o. refl, refl);
  pcr_read_keeps = λ b u n d x c s. (λ o. refl, refl);
  get_properties_keeps = λ a b n m old x c s. (λ o. refl, refl);
}

Answers-if :
    (b : Bool) (asked_for : Selections)
    → asked asked_for.count asked_for.banks 4 0 ≡ b
    → Answers platform tpm commands asked_for (selection_if b) (digests_if b)
unfolding is_pcr_selected
Answers-if true asked_for e = record {
  fits = omega arith;
  nothing_or_asked = inr (4, 0, [], refl, e);
}
Answers-if false asked_for e = record { fits = omega arith; nothing_or_asked = inl refl }

pub commands-AnswersReads : AnswersReads platform tpm commands
commands-AnswersReads b u o d x c s ok = Answers-if (asked b.count b.banks 4 0) b refl

abbrev pub world : World ℕ ℕ
world = record { machine = machine; blocks = [] }
