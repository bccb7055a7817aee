-- ===== src/MimeTypes/TableD.antt =====
-- Source/Utilities/MimeTypes.cpp: the table's part from `med` to `pce`.
use marisa.Prelude.{List, [], ◌∷◌, Bytes, codes}

abbrev pub mime_types_d : List (Bytes × Bytes)
mime_types_d =
    (codes "med", codes "audio/x-mod")
    ∷ (codes "meta4", codes "application/metalink4")
    ∷ (codes "metalink", codes "application/metalink")
    ∷ (codes "me", codes "text/x-troff-me")
    ∷ (codes "mgp", codes "application/x-magicpoint")
    ∷ (codes "mht", codes "application/x-mimearchive")
    ∷ (codes "mhtml", codes "application/x-mimearchive")
    ∷ (codes "mid", codes "audio/midi")
    ∷ (codes "midi", codes "audio/midi")
    ∷ (codes "mif", codes "application/x-mif")
    ∷ (codes "minipsf", codes "audio/x-minipsf")
    ∷ (codes "mj2", codes "video/mj2")
    ∷ (codes "mjp2", codes "video/mj2")
    ∷ (codes "mjs", codes "application/javascript")
    ∷ (codes "mk3d", codes "video/x-matroska-3d")
    ∷ (codes "mka", codes "audio/x-matroska")
    ∷ (codes "mkd", codes "text/markdown")
    ∷ (codes "mk", codes "text/x-makefile")
    ∷ (codes "mkv", codes "video/x-matroska")
    ∷ (codes "mli", codes "text/x-ocaml")
    ∷ (codes "ml", codes "text/x-ocaml")
    ∷ (codes "mlt", codes "video/mlt-playlist")
    ∷ (codes "mmf", codes "application/x-smaf")
    ∷ (codes "mml", codes "application/mathml")
    ∷ (codes "mmp", codes "application/x-lmms-project")
    ∷ (codes "mmpz", codes "application/x-lmms-project")
    ∷ (codes "mm", codes "text/x-troff-mm")
    ∷ (codes "mng", codes "video/x-mng")
    ∷ (codes "mo3", codes "audio/x-mo3")
    ∷ (codes "mo", codes "application/x-gettext-translation")
    ∷ (codes "mobi", codes "application/x-mobipocket-ebook")
    ∷ (codes "moc", codes "text/x-moc")
    ∷ (codes "mod", codes "audio/x-mod")
    ∷ (codes "mof", codes "text/x-mof")
    ∷ (codes "moov", codes "video/quicktime")
    ∷ (codes "mos", codes "image/x-kde-raw")
    ∷ (codes "mo", codes "text/x-modelica")
    ∷ (codes "mount", codes "text/x-systemd-unit")
    ∷ (codes "movie", codes "video/x-sgi-movie")
    ∷ (codes "mov", codes "video/quicktime")
    ∷ (codes "mp2", codes "audio/mp2")
    ∷ (codes "mp2", codes "video/mpeg")
    ∷ (codes "mp3", codes "audio/mpeg")
    ∷ (codes "mp4", codes "video/mp4")
    ∷ (codes "mp+", codes "audio/x-musepack")
    ∷ (codes "mpc", codes "audio/x-musepack")
    ∷ (codes "mpeg", codes "video/mpeg")
    ∷ (codes "mpe", codes "video/mpeg")
    ∷ (codes "mpga", codes "audio/mpeg")
    ∷ (codes "mpg", codes "video/mpeg")
    ∷ (codes "mplog", codes "application/x-micropross-mplog")
    ∷ (codes "mpls", codes "video/mp2t")
    ∷ (codes "mpl", codes "video/mp2t")
    ∷ (codes "mpp", codes "audio/x-musepack")
    ∷ (codes "mps", codes "application/x-mps")
    ∷ (codes "mrl", codes "text/x-mrml")
    ∷ (codes "mrml", codes "text/x-mrml")
    ∷ (codes "mrw", codes "image/x-minolta-mrw")
    ∷ (codes "msi", codes "application/x-ms-win-installer")
    ∷ (codes "msod", codes "image/x-msod")
    ∷ (codes "ms", codes "text/x-troff-ms")
    ∷ (codes "msx", codes "application/x-msx-rom")
    ∷ (codes "m", codes "text/x-matlab")
    ∷ (codes "mtm", codes "audio/x-mod")
    ∷ (codes "mts", codes "video/mp2t")
    ∷ (codes "mup", codes "text/x-mup")
    ∷ (codes "mxf", codes "application/mxf")
    ∷ (codes "mxu", codes "video/vnd.mpegurl")
    ∷ (codes "n64", codes "application/x-n64-rom")
    ∷ (codes "nb", codes "application/mathematica")
    ∷ (codes "nc", codes "application/x-netcdf")
    ∷ (codes "nds", codes "application/x-nintendo-ds-rom")
    ∷ (codes "nef", codes "image/x-nikon-nef")
    ∷ (codes "nes", codes "application/x-nes-rom")
    ∷ (codes "nez", codes "application/x-nes-rom")
    ∷ (codes "nfo", codes "text/x-nfo")
    ∷ (codes "ngp", codes "application/x-neo-geo-pocket-rom")
    ∷ (codes "notifyrc", codes "application/vnd.kde.knotificationrc")
    ∷ (codes "not", codes "text/x-mup")
    ∷ (codes "nsc", codes "application/x-netshow-channel")
    ∷ (codes "nsv", codes "video/x-nsv")
    ∷ (codes "ntar", codes "application/x-pcapng")
    ∷ (codes "nzb", codes "application/x-nzb")
    ∷ (codes "o", codes "application/x-object")
    ∷ (codes "obj", codes "application/x-tgif")
    ∷ (codes "obt", codes "application/x-openbox-theme")
    ∷ (codes "ocl", codes "text/x-ocl")
    ∷ (codes "oda", codes "application/oda")
    ∷ (codes "odb", codes "application/vnd.oasis.opendocument.database")
    ∷ (codes "odc", codes "application/vnd.oasis.opendocument.chart")
    ∷ (codes "odf", codes "application/vnd.oasis.opendocument.formula")
    ∷ (codes "odg", codes "application/vnd.oasis.opendocument.graphics")
    ∷ (codes "odi", codes "application/vnd.oasis.opendocument.image")
    ∷ (codes "odm", codes "application/vnd.oasis.opendocument.text-master")
    ∷ (codes "odp", codes "application/vnd.oasis.opendocument.presentation")
    ∷ (codes "ods", codes "application/vnd.oasis.opendocument.spreadsheet")
    ∷ (codes "odt", codes "application/vnd.oasis.opendocument.text")
    ∷ (codes "oga", codes "audio/ogg")
    ∷ (codes "ogg", codes "audio/ogg")
    ∷ (codes "ogv", codes "video/ogg")
    ∷ (codes "ogx", codes "application/ogg")
    ∷ (codes "okular", codes "application/vnd.kde.okular-archive")
    ∷ (codes "old", codes "application/x-trash")
    ∷ (codes "oleo", codes "application/x-oleo")
    ∷ (codes "ooc", codes "text/x-ooc")
    ∷ (codes "opml", codes "text/x-opml")
    ∷ (codes "oprc", codes "application/vnd.palm")
    ∷ (codes "opus", codes "audio/x-opus+ogg")
    ∷ (codes "ora", codes "image/openraster")
    ∷ (codes "orf", codes "image/x-olympus-orf")
    ∷ (codes "osd", codes "application/x-vnd.kde.okteta.structure")
    ∷ (codes "otc", codes "application/vnd.oasis.opendocument.chart-template")
    ∷ (codes "otf", codes "font/otf")
    ∷ (codes "otg", codes "application/vnd.oasis.opendocument.graphics-template")
    ∷ (codes "oth", codes "application/vnd.oasis.opendocument.text-web")
    ∷ (codes "otm", codes "application/vnd.oasis.opendocument.text-master-template")
    ∷ (codes "otp", codes "application/vnd.oasis.opendocument.presentation-template")
    ∷ (codes "ots", codes "application/vnd.oasis.opendocument.spreadsheet-template")
    ∷ (codes "ott", codes "application/vnd.oasis.opendocument.text-template")
    ∷ (codes "owl", codes "application/rdf")
    ∷ (codes "owx", codes "application/owl")
    ∷ (codes "oxps", codes "application/oxps")
    ∷ (codes "oxt", codes "application/vnd.openofficeorg.extension")
    ∷ (codes "p10", codes "application/pkcs10")
    ∷ (codes "p12", codes "application/pkcs12")
    ∷ (codes "p65", codes "application/x-pagemaker")
    ∷ (codes "p7b", codes "application/pkcs7-mime")
    ∷ (codes "p7b", codes "application/x-pkcs7-certificates")
    ∷ (codes "p7c", codes "application/pkcs7-mime")
    ∷ (codes "p7m", codes "application/pkcs7-mime")
    ∷ (codes "p7s", codes "application/pkcs7-signature")
    ∷ (codes "p8", codes "application/pkcs8")
    ∷ (codes "pack", codes "application/x-java-pack200")
    ∷ (codes "pak", codes "application/x-pak")
    ∷ (codes "par2", codes "application/x-par2")
    ∷ (codes "part", codes "application/x-partial-download")
    ∷ (codes "pas", codes "text/x-pascal")
    ∷ (codes "patch", codes "text/x-patch")
    ∷ (codes "path", codes "text/x-systemd-unit")
    ∷ (codes "pat", codes "image/x-gimp-pat")
    ∷ (codes "pbm", codes "image/x-portable-bitmap")
    ∷ (codes "pcap", codes "application/vnd.tcpdump.pcap")
    ∷ (codes "pcapng", codes "application/x-pcapng")
    ∷ (codes "pcd", codes "image/x-photo-cd")
    ∷ (codes "pce", codes "application/x-pc-engine-rom")
    ∷ []
