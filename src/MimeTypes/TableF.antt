-- ===== src/MimeTypes/TableF.antt =====
-- Source/Utilities/MimeTypes.cpp: the table's part from `scala` to `uin`.
use marisa.Prelude.{List, [], ◌∷◌, Bytes, codes}

abbrev pub mime_types_f : List (Bytes × Bytes)
mime_types_f =
    (codes "scala", codes "text/x-scala")
    ∷ (codes "scm", codes "text/x-scheme")
    ∷ (codes "scope", codes "text/x-systemd-unit")
    ∷ (codes "scss", codes "text/x-scss")
    ∷ (codes "sda", codes "application/vnd.stardivision.draw")
    ∷ (codes "sdc", codes "application/vnd.stardivision.calc")
    ∷ (codes "sdd", codes "application/vnd.stardivision.impress")
    ∷ (codes "sdp", codes "application/sdp")
    ∷ (codes "sdp", codes "application/vnd.stardivision.impress")
    ∷ (codes "sds", codes "application/vnd.stardivision.chart")
    ∷ (codes "sdw", codes "application/vnd.stardivision.writer")
    ∷ (codes "seg", codes "application/x-kseg")
    ∷ (codes "service", codes "text/x-systemd-unit")
    ∷ (codes "sfc", codes "application/vnd.nintendo.snes.rom")
    ∷ (codes "sg", codes "application/x-sg1000-rom")
    ∷ (codes "sgb", codes "application/x-gameboy-rom")
    ∷ (codes "sgf", codes "application/x-go-sgf")
    ∷ (codes "sgi", codes "image/x-sgi")
    ∷ (codes "sgl", codes "application/vnd.stardivision.writer")
    ∷ (codes "sgml", codes "text/sgml")
    ∷ (codes "sgm", codes "text/sgml")
    ∷ (codes "sgrd", codes "application/x-ksysguard")
    ∷ (codes "shape", codes "application/x-dia-shape")
    ∷ (codes "sh", codes "application/x-shellscript")
    ∷ (codes "shar", codes "application/x-shar")
    ∷ (codes "shn", codes "application/x-shorten")
    ∷ (codes "shriman", codes "application/x-gip")
    ∷ (codes "siag", codes "application/x-siag")
    ∷ (codes "sid", codes "audio/prs.sid")
    ∷ (codes "sig", codes "application/pgp-signature")
    ∷ (codes "sik", codes "application/x-trash")
    ∷ (codes "sis", codes "application/vnd.symbian.install")
    ∷ (codes "sit", codes "application/x-stuffit")
    ∷ (codes "siv", codes "application/sieve")
    ∷ (codes "sk1", codes "image/x-skencil")
    ∷ (codes "sk", codes "image/x-skencil")
    ∷ (codes "skr", codes "application/pgp-keys")
    ∷ (codes "skz", codes "application/x-superkaramba")
    ∷ (codes "sldm", codes "application/vnd.ms-powerpoint.slide.macroenabled.12")
    ∷ (codes "sldx", codes "application/vnd.opeformats-officedocument.presentationml.slide")
    ∷ (codes "slice", codes "text/x-systemd-unit")
    ∷ (codes "slk", codes "text/spreadsheet")
    ∷ (codes "smaf", codes "application/x-smaf")
    ∷ (codes "smc", codes "application/vnd.nintendo.snes.rom")
    ∷ (codes "smd", codes "application/vnd.stardivision.mail")
    ∷ (codes "smf", codes "application/vnd.stardivision.math")
    ∷ (codes "smi", codes "application/smil")
    ∷ (codes "smil", codes "application/smil")
    ∷ (codes "sml", codes "application/smil")
    ∷ (codes "sms", codes "application/x-sms-rom")
    ∷ (codes "snap", codes "application/vnd.snap")
    ∷ (codes "snd", codes "audio/basic")
    ∷ (codes "snf", codes "application/x-font-snf")
    ∷ (codes "snoop", codes "application/x-snoop")
    ∷ (codes "so", codes "application/x-sharedlib")
    ∷ (codes "socket", codes "text/x-systemd-unit")
    ∷ (codes "spc", codes "application/pkcs7-mime")
    ∷ (codes "spd", codes "application/x-font-speedo")
    ∷ (codes "spec", codes "text/x-rpm-spec")
    ∷ (codes "spkac", codes "application/x-spkac")
    ∷ (codes "spl", codes "application/vnd.adobe.flash.movie")
    ∷ (codes "spm", codes "application/x-source-rpm")
    ∷ (codes "spx", codes "audio/x-speex")
    ∷ (codes "sql", codes "application/sql")
    ∷ (codes "sqsh", codes "application/vnd.squashfs")
    ∷ (codes "sr2", codes "image/x-sony-sr2")
    ∷ (codes "src", codes "application/x-wais-source")
    ∷ (codes "srec", codes "text/x-srecord")
    ∷ (codes "srf", codes "image/x-sony-srf")
    ∷ (codes "srt", codes "application/x-subrip")
    ∷ (codes "ssa", codes "text/x-ssa")
    ∷ (codes "ss", codes "text/x-scheme")
    ∷ (codes "stc", codes "application/vnd.sun.calc.template")
    ∷ (codes "std", codes "application/vnd.sun.draw.template")
    ∷ (codes "sti", codes "application/vnd.sun.impress.template")
    ∷ (codes "stm", codes "audio/x-stm")
    ∷ (codes "stw", codes "application/vnd.sun.writer.template")
    ∷ (codes "sty", codes "text/x-tex")
    ∷ (codes "sub", codes "text/x-mpsub")
    ∷ (codes "sun", codes "image/x-sun-raster")
    ∷ (codes "sv4cpio", codes "application/x-sv4cpio")
    ∷ (codes "sv4crc", codes "application/x-sv4crc")
    ∷ (codes "svg", codes "image/svg")
    ∷ (codes "svgz", codes "image/svg-compressed")
    ∷ (codes "svh", codes "text/x-svhdr")
    ∷ (codes "sv", codes "text/x-svsrc")
    ∷ (codes "swap", codes "text/x-systemd-unit")
    ∷ (codes "swf", codes "application/vnd.adobe.flash.movie")
    ∷ (codes "swm", codes "application/x-ms-wim")
    ∷ (codes "sxc", codes "application/vnd.sun.calc")
    ∷ (codes "sxd", codes "application/vnd.sun.draw")
    ∷ (codes "sxg", codes "application/vnd.sun.writer.global")
    ∷ (codes "sxi", codes "application/vnd.sun.impress")
    ∷ (codes "sxm", codes "application/vnd.sun.math")
    ∷ (codes "sxw", codes "application/vnd.sun.writer")
    ∷ (codes "sylk", codes "text/spreadsheet")
    ∷ (codes "t2t", codes "text/x-txt2tags")
    ∷ (codes "tar", codes "application/x-tar")
    ∷ (codes "taz", codes "application/x-tarz")
    ∷ (codes "tb2", codes "application/x-bzip-compressed-tar")
    ∷ (codes "tbz2", codes "application/x-bzip-compressed-tar")
    ∷ (codes "tbz", codes "application/x-bzip-compressed-tar")
    ∷ (codes "tcl", codes "text/x-tcl")
    ∷ (codes "texinfo", codes "text/x-texinfo")
    ∷ (codes "texi", codes "text/x-texinfo")
    ∷ (codes "tex", codes "text/x-tex")
    ∷ (codes "tga", codes "image/x-tga")
    ∷ (codes "tgz", codes "application/x-compressed-tar")
    ∷ (codes "theme", codes "application/x-theme")
    ∷ (codes "themepack", codes "application/x-windows-themepack")
    ∷ (codes "tiff", codes "image/tiff")
    ∷ (codes "tif", codes "image/tiff")
    ∷ (codes "timer", codes "text/x-systemd-unit")
    ∷ (codes "tk", codes "text/x-tcl")
    ∷ (codes "tlrz", codes "application/x-lrzip-compressed-tar")
    ∷ (codes "tlz", codes "application/x-lzma-compressed-tar")
    ∷ (codes "tnef", codes "application/vnd.ms-tnef")
    ∷ (codes "tnf", codes "application/vnd.ms-tnef")
    ∷ (codes "toc", codes "application/x-cdrdao-toc")
    ∷ (codes "torrent", codes "application/x-bittorrent")
    ∷ (codes "tpc", codes "application/x-etherpeek")
    ∷ (codes "tpic", codes "image/x-tga")
    ∷ (codes "tr1", codes "application/x-lanalyzer")
    ∷ (codes "trc0", codes "application/x-nettl")
    ∷ (codes "trc1", codes "application/x-nettl")
    ∷ (codes "trig", codes "application/trig")
    ∷ (codes "tr", codes "text/troff")
    ∷ (codes "ts", codes "video/mp2t")
    ∷ (codes "tsv", codes "text/tab-separated-values")
    ∷ (codes "tta", codes "audio/x-tta")
    ∷ (codes "ttc", codes "font/collection")
    ∷ (codes "ttf", codes "font/ttf")
    ∷ (codes "ttl", codes "text/turtle")
    ∷ (codes "ttx", codes "application/x-font-ttx")
    ∷ (codes "tuberling", codes "application/x-tuberling")
    ∷ (codes "twig", codes "text/x-twig")
    ∷ (codes "txt", codes "text/plain")
    ∷ (codes "txz", codes "application/x-xz-compressed-tar")
    ∷ (codes "tzo", codes "application/x-tzo")
    ∷ (codes "udeb", codes "application/vnd.debian.binary-package")
    ∷ (codes "ufraw", codes "application/x-ufraw")
    ∷ (codes "ui", codes "application/x-designer")
    ∷ (codes "ui", codes "application/x-gtk-builder")
    ∷ (codes "uil", codes "text/x-uil")
    ∷ (codes "uin", codes "application/x-icq")
    ∷ []
