-- ===== src/MimeTypes/TableC.antt =====
-- Source/Utilities/MimeTypes.cpp: the table's part from `ics` to `mdx`.
use marisa.Prelude.{List, [], ◌∷◌, Bytes, codes}

abbrev pub mime_types_c : List (Bytes × Bytes)
mime_types_c =
    (codes "ics", codes "text/calendar")
    ∷ (codes "idl", codes "text/x-idl")
    ∷ (codes "ief", codes "image/ief")
    ∷ (codes "iff", codes "image/x-ilbm")
    ∷ (codes "ihex", codes "text/x-ihex")
    ∷ (codes "ilbm", codes "image/x-ilbm")
    ∷ (codes "ime", codes "text/x-imelody")
    ∷ (codes "img", codes "application/x-raw-disk-image")
    ∷ (codes "imy", codes "text/x-imelody")
    ∷ (codes "inf", codes "text/plain")
    ∷ (codes "ini", codes "text/plain")
    ∷ (codes "ins", codes "text/x-tex")
    ∷ (codes "ipfix", codes "application/ipfix")
    ∷ (codes "iptables", codes "text/x-iptables")
    ∷ (codes "ipynb", codes "application/x-ipynb+json")
    ∷ (codes "iso", codes "application/x-cd-image")
    ∷ (codes "it87", codes "application/x-it87")
    ∷ (codes "it", codes "audio/x-it")
    ∷ (codes "j2c", codes "image/x-jp2-codestream")
    ∷ (codes "j2k", codes "image/x-jp2-codestream")
    ∷ (codes "jad", codes "text/vnd.sun.j2me.app-descriptor")
    ∷ (codes "jar", codes "application/x-java-archive")
    ∷ (codes "java", codes "text/x-java")
    ∷ (codes "jceks", codes "application/x-java-jce-keystore")
    ∷ (codes "jks", codes "application/x-java-keystore")
    ∷ (codes "jng", codes "image/x-jng")
    ∷ (codes "jnlp", codes "application/x-java-jnlp-file")
    ∷ (codes "jp2", codes "image/jp2")
    ∷ (codes "jpc", codes "image/x-jp2-codestream")
    ∷ (codes "jpeg", codes "image/jpeg")
    ∷ (codes "jpe", codes "image/jpeg")
    ∷ (codes "jpf", codes "image/jpx")
    ∷ (codes "jpg2", codes "image/jp2")
    ∷ (codes "jpg", codes "image/jpeg")
    ∷ (codes "jpgm", codes "image/jpm")
    ∷ (codes "jpm", codes "image/jpm")
    ∷ (codes "jpr", codes "application/x-jbuilder-project")
    ∷ (codes "jpx", codes "image/jpx")
    ∷ (codes "jrd", codes "application/jrd+json")
    ∷ (codes "js", codes "application/javascript")
    ∷ (codes "jsm", codes "application/javascript")
    ∷ (codes "json", codes "application/json")
    ∷ (codes "jsonld", codes "application/ld+json")
    ∷ (codes "json-patch", codes "application/json-patch+json")
    ∷ (codes "k25", codes "image/x-kodak-k25")
    ∷ (codes "k3b", codes "application/x-k3b")
    ∷ (codes "k7", codes "application/x-thomson-cassette")
    ∷ (codes "kar", codes "audio/midi")
    ∷ (codes "karbon", codes "application/x-karbon")
    ∷ (codes "katefl", codes "text/x-katefilelist")
    ∷ (codes "kcfg", codes "application/vnd.kde.kcfg")
    ∷ (codes "kcfgc", codes "application/vnd.kde.kcfgc")
    ∷ (codes "kcsrc", codes "application/x-kcsrc")
    ∷ (codes "kdbx", codes "application/x-keepass2")
    ∷ (codes "kdc", codes "image/x-kodak-kdc")
    ∷ (codes "kdelnk", codes "application/x-desktop")
    ∷ (codes "kdenlive", codes "application/x-kdenlive")
    ∷ (codes "kdenlivetitle", codes "application/x-kdenlivetitle")
    ∷ (codes "kexi", codes "application/x-kexiproject-sqlite2")
    ∷ (codes "kexic", codes "application/x-kexi-connectiondata")
    ∷ (codes "kexis", codes "application/x-kexiproject-shortcut")
    ∷ (codes "key", codes "application/x-iwork-keynote-sffkey")
    ∷ (codes "kfo", codes "application/x-kformula")
    ∷ (codes "kgeo", codes "application/x-kgeo")
    ∷ (codes "kgt", codes "application/x-kgetlist")
    ∷ (codes "kig", codes "application/x-kig")
    ∷ (codes "kigz", codes "application/x-kig")
    ∷ (codes "kil", codes "application/x-killustrator")
    ∷ (codes "kim", codes "application/vnd.kde.kphotoalbum-import")
    ∷ (codes "kino", codes "application/smil")
    ∷ (codes "kmdr", codes "application/x-kommander")
    ∷ (codes "kml", codes "application/vnd.google-earth.kml")
    ∷ (codes "kmz", codes "application/vnd.google-earth.kmz")
    ∷ (codes "kns", codes "application/x-kns")
    ∷ (codes "kolf", codes "application/x-kourse")
    ∷ (codes "kolfgame", codes "application/x-kolf")
    ∷ (codes "kon", codes "application/x-kontour")
    ∷ (codes "kopete-emoticons", codes "application/x-kopete-emoticons")
    ∷ (codes "kourse", codes "application/x-kourse")
    ∷ (codes "kplato", codes "application/x-vnd.kde.kplato")
    ∷ (codes "kplatowork", codes "application/x-vnd.kde.kplato.work")
    ∷ (codes "kpm", codes "application/x-kpovmodeler")
    ∷ (codes "kpr", codes "application/x-kpresenter")
    ∷ (codes "kpt", codes "application/x-kpresenter")
    ∷ (codes "kra", codes "application/x-krita")
    ∷ (codes "ks", codes "application/x-java-keystore")
    ∷ (codes "ksp", codes "application/x-kspread")
    ∷ (codes "kth", codes "application/x-ktheme")
    ∷ (codes "ktx", codes "image/ktx")
    ∷ (codes "kud", codes "application/x-kugar")
    ∷ (codes "kug", codes "application/x-vnd.kde.kugar.mixed")
    ∷ (codes "kut", codes "application/x-kudesigner")
    ∷ (codes "kvtml", codes "application/x-kvtml")
    ∷ (codes "kwd", codes "application/x-kword")
    ∷ (codes "kwl", codes "application/x-kwallet")
    ∷ (codes "kwt", codes "application/x-kword")
    ∷ (codes "la", codes "application/x-shared-library-la")
    ∷ (codes "latex", codes "text/x-tex")
    ∷ (codes "lbm", codes "image/x-ilbm")
    ∷ (codes "ldif", codes "text/x-ldif")
    ∷ (codes "lha", codes "application/x-lha")
    ∷ (codes "lhs", codes "text/x-literate-haskell")
    ∷ (codes "lhz", codes "application/x-lhz")
    ∷ (codes "lnk", codes "application/x-ms-shortcut")
    ∷ (codes "lnx", codes "application/x-atari-lynx-rom")
    ∷ (codes "log", codes "text/x-log")
    ∷ (codes "lrv", codes "video/mp4")
    ∷ (codes "lrz", codes "application/x-lrzip")
    ∷ (codes "ltx", codes "text/x-tex")
    ∷ (codes "lua", codes "text/x-lua")
    ∷ (codes "lwob", codes "image/x-lwo")
    ∷ (codes "lwo", codes "image/x-lwo")
    ∷ (codes "lwp", codes "application/vnd.lotus-wordpro")
    ∷ (codes "lws", codes "image/x-lws")
    ∷ (codes "ly", codes "text/x-lilypond")
    ∷ (codes "lyx", codes "application/x-lyx")
    ∷ (codes "lz4", codes "application/x-lz4")
    ∷ (codes "lz", codes "application/x-lzip")
    ∷ (codes "lzh", codes "application/x-lha")
    ∷ (codes "lzma", codes "application/x-lzma")
    ∷ (codes "lzo", codes "application/x-lzop")
    ∷ (codes "m15", codes "audio/x-mod")
    ∷ (codes "m1u", codes "video/vnd.mpegurl")
    ∷ (codes "m2ts", codes "video/mp2t")
    ∷ (codes "m2t", codes "video/mp2t")
    ∷ (codes "m3u8", codes "audio/x-mpegurl")
    ∷ (codes "m3u", codes "audio/x-mpegurl")
    ∷ (codes "m4a", codes "audio/mp4")
    ∷ (codes "m4", codes "application/x-m4")
    ∷ (codes "m4b", codes "audio/x-m4b")
    ∷ (codes "m4u", codes "video/vnd.mpegurl")
    ∷ (codes "m4v", codes "video/mp4")
    ∷ (codes "m7", codes "application/x-thomson-cartridge-memo7")
    ∷ (codes "mab", codes "application/x-markaby")
    ∷ (codes "makefile", codes "text/x-makefile")
    ∷ (codes "mak", codes "text/x-makefile")
    ∷ (codes "man", codes "application/x-troff-man")
    ∷ (codes "manifest", codes "text/cache-manifest")
    ∷ (codes "markdown", codes "text/markdown")
    ∷ (codes "mbox", codes "application/mbox")
    ∷ (codes "mdb", codes "application/vnd.ms-access")
    ∷ (codes "mdc", codes "image/x-kde-raw")
    ∷ (codes "mdi", codes "image/vnd.ms-modi")
    ∷ (codes "md", codes "text/markdown")
    ∷ (codes "mdx", codes "application/x-genesis-32x-rom")
    ∷ []
