-- ===== src/Elf/Sample.antt =====
-- An image for the runs of Applications/Loader/main.cpp on a concrete input.
use dhos_reborn.Base.{◌||◌, ◌==◌, if◌then◌else◌}
use dhos_reborn.LibC.{Memory}

-- An image of 256 bytes at 4096: one segment of four bytes at 0x400000, two of them in the file.
abbrev pub image : Memory
image a =
    if a == 4096
    then 0x7f
    else if a == 4097
    then 0x45
    else if a == 4098
    then 0x4c
    else if a == 4099
    then 0x46
    else if a == 4112
    then 2
    else if a == 4122
    then 0x40
    else if a == 4128
    then 64
    else if a == 4150
    then 56
    else if (a == 4152) || (a == 4160)
    then 1
    else if a == 4164
    then 5
    else if a == 4168
    then 120
    else if a == 4178
    then 0x40
    else if a == 4192
    then 2
    else if a == 4200
    then 4
    else if a == 4216
    then 0xaa
    else if a == 4217
    then 0xbb
    else 0
