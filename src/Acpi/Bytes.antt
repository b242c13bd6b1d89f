-- ===== src/Acpi/Bytes.antt =====
-- Little-endian fields of the packed structures of kernel/include/acpi and kernel/src/acpi, in the
-- byte memory of kernel/src/lib/string.cpp.
use epsilon_os.Base.{ℕ, ◌+◌, ◌*◌, ◌^◌}
use epsilon_os.CString.{Memory}

abbrev pub le16 : Memory → ℕ → ℕ
le16 m a = m a + 2 ^ 8 * m (a + 1)

abbrev pub le32 : Memory → ℕ → ℕ
le32 m a = le16 m a + 2 ^ 16 * le16 m (a + 2)

abbrev pub le64 : Memory → ℕ → ℕ
le64 m a = le32 m a + 2 ^ 32 * le32 m (a + 4)
