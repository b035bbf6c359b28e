-- ===== src/Device/Syscall/Calls.antt =====
-- The calls of sw/device/runtime/syscall.c that only answer: most set `errno` and return -1.
-- Their arguments are not read, and are left out.
pub mod Program
pub mod Steps
use len5_core.Common.{ℕ, Option, none, some}
use len5_core.Common.Int.{ℤ, pos, negsuc}
use len5_core.Device.Syscall.{
  Machine, is, minus, enosys, enomem, eagain, einval, emlink, enoent, echild, fail,
}

unfoldable pub access : Machine → Machine × ℤ
unfolding fail
access = fail (is enosys)

unfoldable pub chdir : Machine → Machine × ℤ
unfolding fail
chdir = fail (is enosys)

unfoldable pub chmod : Machine → Machine × ℤ
unfolding fail
chmod = fail (is enosys)

unfoldable pub chown : Machine → Machine × ℤ
unfolding fail
chown = fail (is enosys)

unfoldable pub close : Machine → Machine × ℤ
close m = (m, negsuc 0)

unfoldable pub execve : Machine → Machine × ℤ
unfolding fail
execve = fail (is enomem)

unfoldable pub faccessat : Machine → Machine × ℤ
unfolding fail
faccessat = fail (is enosys)

unfoldable pub fork : Machine → Machine × ℤ
unfolding fail
fork = fail (is eagain)

unfoldable pub fstatat : Machine → Machine × ℤ
unfolding fail
fstatat = fail (is enosys)

unfoldable pub ftime : Machine → Machine × ℤ
unfolding fail
ftime = fail (is enosys)

unfoldable pub gettimeofday : Machine → Machine × ℤ
unfolding fail
gettimeofday = fail (minus enosys)

unfoldable pub kill : Machine → Machine × ℤ
unfolding fail
kill = fail (is einval)

unfoldable pub link : Machine → Machine × ℤ
unfolding fail
link = fail (is emlink)

unfoldable pub lstat : Machine → Machine × ℤ
unfolding fail
lstat = fail (is enosys)

unfoldable pub open_file : Machine → Machine × ℤ
open_file m = (m, negsuc 0)

unfoldable pub openat : Machine → Machine × ℤ
unfolding fail
openat = fail (is enosys)

unfoldable pub sysconf : Machine → Machine × ℤ
sysconf m = (m, negsuc 0)

unfoldable pub unlink : Machine → Machine × ℤ
unfolding fail
unlink = fail (is enoent)

unfoldable pub utime : Machine → Machine × ℤ
unfolding fail
utime = fail (is enosys)

unfoldable pub wait : Machine → Machine × ℤ
unfolding fail
wait = fail (is echild)

-- The result NULL is 0.
unfoldable pub getcwd : Machine → Machine × ℤ
getcwd m = (record m { errno = minus enosys }, pos 0)

unfoldable pub getpid : Machine → Machine × ℤ
getpid m = (m, pos 1)

unfoldable pub lseek : Machine → Machine × ℤ
lseek m = (m, pos 0)

-- The value S_IFCHR of `st_mode`.
pub data FileMode : Type 0 where
  char_device : FileMode

-- The mode that is stored through `st` stands last.
unfoldable pub fstat : Machine → Machine × ℤ × FileMode
fstat m = (m, pos 0, char_device)

unfoldable pub stat : Machine → Machine × ℤ × FileMode
stat m = (m, pos 0, char_device)
