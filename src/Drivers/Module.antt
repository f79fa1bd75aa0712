-- ===== src/Drivers/Module.antt =====
-- `my_init` and `my_exit`, which `2_I/driver.c` and `2_II/doom.c` both have, word for word.
use advance_virtualization_a.Prelude.{
  ℕ, ◌≡◌, ◌⊎◌, refl, inl, inr, Bool, true, false, Option, none, some, ℤ, pos, negsuc, is_negative,
  Bool-cases, if◌then◌else◌,
}

-- A kernel pointer that can hold an error: `error n` is `ERR_PTR(-(n + 1))`.
pub data Pointer : Type 0 where
  valid : ℕ → Pointer
  error : ℕ → Pointer

-- What the kernel answers to the calls of `my_init`.
pub record Answers : Type 0 where
  pub alloc_chrdev_region : ℤ
  pub cdev_add : ℤ
  pub class_create : Pointer
  pub device_create : Pointer

-- What the module holds of the kernel's: the device number, the registered `c_dev`, the class `cl` and
-- the device node.
pub record Held : Type 0 where
  pub chrdev_region : Bool
  pub cdev : Bool
  pub device_class : Option ℕ
  pub device_node : Option ℕ

abbrev pub nothing_held : Held
nothing_held = record {
  chrdev_region = false;
  cdev = false;
  device_class = none;
  device_node = none;
}

abbrev unregister_chrdev_region : Held → Held
unregister_chrdev_region h = record h { chrdev_region = false }

abbrev cdev_del : Held → Held
cdev_del h = record h { cdev = false }

abbrev class_destroy : Held → Held
class_destroy h = record h { device_class = none }

abbrev device_destroy : Held → Held
device_destroy h = record h { device_node = none }

-- `if (IS_ERR(dev_ret = device_create(…)))`
add_device : Pointer → Held → ℤ × Held
add_device (valid d) h = (pos 0, record h { device_node = some d })
add_device (error n) h = (negsuc n, unregister_chrdev_region (cdev_del (class_destroy h)))

-- `if (IS_ERR(cl = class_create(…)))`, and what follows it.
add_class : Pointer → Pointer → Held → ℤ × Held
unfolding add_device
add_class (valid c) device h = add_device device (record h { device_class = some c })
add_class (error n) device h = (negsuc n, unregister_chrdev_region (cdev_del h))

-- `my_init`
unfoldable pub my_init : Answers → Held → ℤ × Held
unfolding add_class
my_init a h =
    let with_region = record h { chrdev_region = true } in
    if is_negative a.alloc_chrdev_region
    then (a.alloc_chrdev_region, h)
    else (if is_negative a.cdev_add
        then (a.cdev_add, with_region)
        else add_class a.class_create a.device_create (record with_region { cdev = true }))

-- `my_exit`
unfoldable pub my_exit : Held → Held
my_exit h = unregister_chrdev_region (cdev_del (class_destroy (device_destroy h)))

-- The module is set up: it holds all four.
pub record IsSetUp (h : Held) : Type 0 where
  pub region : h.chrdev_region ≡ true
  pub added : h.cdev ≡ true
  pub has_class : (c : ℕ) × (h.device_class ≡ some c)
  pub has_node : (d : ℕ) × (h.device_node ≡ some d)

add_class-all_or_nothing :
    (c d : Pointer)
    → let (ret, h) = add_class c d (record nothing_held { chrdev_region = true; cdev = true }) in
      ((ret ≡ pos 0) × IsSetUp h × (my_exit h ≡ nothing_held))
      ⊎ ((is_negative ret ≡ true) × (h ≡ nothing_held))
unfolding add_class my_exit
add_class-all_or_nothing (error n) d = inr (refl, refl)
add_class-all_or_nothing (valid c) (error n) = inr (refl, refl)
add_class-all_or_nothing (valid c) (valid d) = inl (
  refl,
  record { region = refl; added = refl; has_class = (c, refl); has_node = (d, refl) },
  refl,
)

-- Whatever the kernel answers to a module that holds nothing, one of three things happens. It loads,
-- with 0, and holds all four resources, which `my_exit` gives back; or it fails, with a negative
-- number, and holds nothing; or the device number is taken, `cdev_add` fails, and the module fails
-- with that number and still holds the device number.
pub my_init_lem :
    (a : Answers)
    → let (ret, h) = my_init a nothing_held in
      ((ret ≡ pos 0) × IsSetUp h × (my_exit h ≡ nothing_held))
      ⊎ (((is_negative ret ≡ true) × (h ≡ nothing_held))
          ⊎ ((is_negative a.alloc_chrdev_region ≡ false)
              × (is_negative a.cdev_add ≡ true)
              × (ret ≡ a.cdev_add)
              × (h ≡ record nothing_held { chrdev_region = true })))
unfolding my_init
my_init_lem a = elim (Bool-cases (is_negative a.alloc_chrdev_region)) [
  | inl failed ↦ rw failed (inr (inl (failed, refl)))
  | inr allocated ↦ elim (Bool-cases (is_negative a.cdev_add)) [
    | inl failed ↦ rw allocated (rw failed (inr (inr (refl, refl, refl, refl))))
    | inr added ↦ rw allocated (
        rw added (elim (add_class-all_or_nothing a.class_create a.device_create) [
          | inl loaded ↦ inl loaded
          | inr clean ↦ inr (inl clean)
        ]))
  ]
]
