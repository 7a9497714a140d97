-- ===== src/Boot/Cpio/Archive/Headers.antt =====
-- The header that `dump` of native/src/boot/cpio.rs writes is the one that `load_from_data` reads.
use magisk.Prelude.{ℕ, ◌^◌, ◌<◌, ◌≡◌, refl, ◌++◌, arith, Bytes, length}
use magisk.Boot.Cpio.Hex.{format_08x, low_digits, format_08x-low_digits}
use magisk.Boot.Cpio.Archive.{CpioHeader, from_bytes, header, magic, hdr_sz}

-- The same header with exactly eight digits in each field.
exact : ℕ → ℕ → ℕ → ℕ → ℕ → ℕ → ℕ → ℕ → ℕ → Bytes
exact inode mode uid gid nlink filesize rdevmajor rdevminor namesize =
    magic
    ++ (low_digits 8 inode
        ++ (low_digits 8 mode
            ++ (low_digits 8 uid
                ++ (low_digits 8 gid
                    ++ (low_digits 8 nlink
                        ++ (low_digits 8 0
                            ++ (low_digits 8 filesize
                                ++ (low_digits 8 0
                                    ++ (low_digits 8 0
                                        ++ (low_digits 8 rdevmajor
                                            ++ (low_digits 8 rdevminor
                                                ++ (low_digits 8 namesize
                                                    ++ low_digits 8 0))))))))))))

-- The fields that are read of a header, as they were written.
abbrev pub written : ℕ → ℕ → ℕ → ℕ → ℕ → ℕ → ℕ → CpioHeader
written mode uid gid filesize rdevmajor rdevminor namesize = record {
  magic = magic;
  mode = format_08x mode;
  uid = format_08x uid;
  gid = format_08x gid;
  filesize = format_08x filesize;
  rdevmajor = format_08x rdevmajor;
  rdevminor = format_08x rdevminor;
  namesize = format_08x namesize;
}

module _ (inode mode uid gid nlink filesize rdevmajor rdevminor namesize : ℕ) (hi : inode < 2 ^ 32)
    (hm : mode < 2 ^ 32) (hu : uid < 2 ^ 32) (hg : gid < 2 ^ 32) (hl : nlink < 2 ^ 32)
    (hf : filesize < 2 ^ 32) (ha : rdevmajor < 2 ^ 32) (hb : rdevminor < 2 ^ 32)
    (hn : namesize < 2 ^ 32) where
  header-exact :
      header inode mode uid gid nlink filesize rdevmajor rdevminor namesize
      ≡ exact inode mode uid gid nlink filesize rdevmajor rdevminor namesize
  unfolding header exact
  header-exact = cc (
    format_08x-low_digits inode hi,
    format_08x-low_digits mode hm,
    format_08x-low_digits uid hu,
    format_08x-low_digits gid hg,
    format_08x-low_digits nlink hl,
    format_08x-low_digits filesize hf,
    format_08x-low_digits rdevmajor ha,
    format_08x-low_digits rdevminor hb,
    format_08x-low_digits namesize hn,
    format_08x-low_digits 0 (omega arith),
  )

  -- A header whose numbers fit takes 110 bytes.
  pub length-header :
      length (header inode mode uid gid nlink filesize rdevmajor rdevminor namesize) ≡ hdr_sz
  length-header = rw header-exact (unfold exact low_digits in refl)

  -- The fields that are read are those that were written.
  pub from_bytes-header :
      from_bytes (header inode mode uid gid nlink filesize rdevmajor rdevminor namesize)
      ≡ written mode uid gid filesize rdevmajor rdevminor namesize
  from_bytes-header =
      rw
        (
          header-exact,
          format_08x-low_digits mode hm,
          format_08x-low_digits uid hu,
          format_08x-low_digits gid hg,
          format_08x-low_digits filesize hf,
          format_08x-low_digits rdevmajor ha,
          format_08x-low_digits rdevminor hb,
          format_08x-low_digits namesize hn,
        )
        (unfold exact low_digits from_bytes in refl)
