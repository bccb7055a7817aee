-- ===== src/MimeTypes/TableE.antt =====
-- Source/Utilities/MimeTypes.cpp: the table's part from `pcf` to `sav`.
use marisa.Prelude.{List, [], ◌∷◌, Bytes, codes}

abbrev pub mime_types_e : List (Bytes × Bytes)
mime_types_e =
    (codes "pcf", codes "application/x-font-pcf")
    ∷ (codes "pcl", codes "application/vnd.hp-pcl")
    ∷ (codes "pct", codes "image/x-pict")
    ∷ (codes "pcx", codes "image/vnd.zbrush.pcx")
    ∷ (codes "pdb", codes "application/vnd.palm")
    ∷ (codes "pdc", codes "application/x-aportisdoc")
    ∷ (codes "pdf", codes "application/pdf")
    ∷ (codes "pef", codes "image/x-pentax-pef")
    ∷ (codes "pem", codes "application/x-x509-ca-cert")
    ∷ (codes "perl", codes "application/x-perl")
    ∷ (codes "pfa", codes "application/x-font-type1")
    ∷ (codes "pfb", codes "application/x-font-type1")
    ∷ (codes "pfx", codes "application/pkcs12")
    ∷ (codes "pgm", codes "image/x-portable-graymap")
    ∷ (codes "pgn", codes "application/vnd.chess-pgn")
    ∷ (codes "pgp", codes "application/pgp-encrypted")
    ∷ (codes "php3", codes "application/x-php")
    ∷ (codes "php4", codes "application/x-php")
    ∷ (codes "php5", codes "application/x-php")
    ∷ (codes "php", codes "application/x-php")
    ∷ (codes "phps", codes "application/x-php")
    ∷ (codes "pic", codes "image/x-pic")
    ∷ (codes "pict1", codes "image/x-pict")
    ∷ (codes "pict2", codes "image/x-pict")
    ∷ (codes "pict", codes "image/x-pict")
    ∷ (codes "pk", codes "application/x-tex-pk")
    ∷ (codes "pkg", codes "application/x-xar")
    ∷ (codes "pkipath", codes "application/pkix-pkipath")
    ∷ (codes "pklg", codes "application/x-apple-packetlogger")
    ∷ (codes "pkpass", codes "application/vnd.apple.pkpass")
    ∷ (codes "pkr", codes "application/pgp-keys")
    ∷ (codes "pkt", codes "application/x-etherpeek")
    ∷ (codes "pla", codes "audio/x-iriver-pla")
    ∷ (codes "plan", codes "application/x-vnd.kde.plan")
    ∷ (codes "planwork", codes "application/x-vnd.kde.plan.work")
    ∷ (codes "pl", codes "application/x-perl")
    ∷ (codes "PL", codes "application/x-perl")
    ∷ (codes "plasmoid", codes "application/x-plasma")
    ∷ (codes "pln", codes "application/x-planperfect")
    ∷ (codes "pls", codes "audio/x-scpls")
    ∷ (codes "pm6", codes "application/x-pagemaker")
    ∷ (codes "pm", codes "application/x-pagemaker")
    ∷ (codes "pm", codes "application/x-perl")
    ∷ (codes "pmd", codes "application/x-pagemaker")
    ∷ (codes "png", codes "image/png")
    ∷ (codes "pnm", codes "image/x-portable-anymap")
    ∷ (codes "pntg", codes "image/x-macpaint")
    ∷ (codes "pnx", codes "image/x-kde-raw")
    ∷ (codes "pod", codes "application/x-perl")
    ∷ (codes "por", codes "application/x-spss-por")
    ∷ (codes "pot", codes "application/vnd.ms-powerpoint")
    ∷ (codes "po", codes "text/x-gettext-translation")
    ∷ (codes "potm", codes "application/vnd.ms-powerpoint.template.macroenabled.12")
    ∷ (codes "pot", codes "text/x-gettext-translation-template")
    ∷ (codes "potx", codes "application/vnd.opeformats-officedocument.presentationml.template")
    ∷ (codes "ppam", codes "application/vnd.ms-powerpoint.addin.macroenabled.12")
    ∷ (codes "ppm", codes "image/x-portable-pixmap")
    ∷ (codes "pps", codes "application/vnd.ms-powerpoint")
    ∷ (codes "ppsm", codes "application/vnd.ms-powerpoint.slideshow.macroenabled.12")
    ∷ (codes "ppsx", codes "application/vnd.opeformats-officedocument.presentationml.slideshow")
    ∷ (codes "ppt", codes "application/vnd.ms-powerpoint")
    ∷ (codes "pptm", codes "application/vnd.ms-powerpoint.presentation.macroenabled.12")
    ∷ (codes "pptx", codes "application/vnd.opeformats-officedocument.presentationml.presentation")
    ∷ (codes "ppz", codes "application/vnd.ms-powerpoint")
    ∷ (codes "pqa", codes "application/vnd.palm")
    ∷ (codes "prc", codes "application/x-mobipocket-ebook")
    ∷ (codes "pro", codes "application/vnd.nokia.qt.qmakeprofile")
    ∷ (codes "ps", codes "application/postscript")
    ∷ (codes "psd", codes "image/vnd.adobe.photoshop")
    ∷ (codes "psf", codes "audio/x-psf")
    ∷ (codes "psflib", codes "audio/x-psflib")
    ∷ (codes "psid", codes "audio/prs.sid")
    ∷ (codes "psw", codes "application/x-pocket-word")
    ∷ (codes "pt", codes "application/vnd.oasis.opendocument.text-master")
    ∷ (codes "pt", codes "application/vnd.oasis.opendocument.text-master-template")
    ∷ (codes "pt", codes "application/vnd.sun.writer.global")
    ∷ (codes "p", codes "text/x-pascal")
    ∷ (codes "pub", codes "application/vnd.ms-publisher")
    ∷ (codes "pw", codes "application/x-pw")
    ∷ (codes "pyc", codes "application/x-python-bytecode")
    ∷ (codes "pyo", codes "application/x-python-bytecode")
    ∷ (codes "qif", codes "application/x-qw")
    ∷ (codes "qif", codes "image/x-quicktime")
    ∷ (codes "qmlproject", codes "text/x-qml")
    ∷ (codes "qml", codes "text/x-qml")
    ∷ (codes "qmltypes", codes "text/x-qml")
    ∷ (codes "qp", codes "application/x-qpress")
    ∷ (codes "qrc", codes "application/vnd.nokia.qt.resource")
    ∷ (codes "qti", codes "application/x-qtiplot")
    ∷ (codes "qtif", codes "image/x-quicktime")
    ∷ (codes "qtl", codes "application/x-quicktime-media-link")
    ∷ (codes "qt", codes "video/quicktime")
    ∷ (codes "qtvr", codes "video/quicktime")
    ∷ (codes "quanta", codes "application/x-quanta")
    ∷ (codes "ra", codes "audio/vnd.rn-realaudio")
    ∷ (codes "raf", codes "image/x-fuji-raf")
    ∷ (codes "ram", codes "application/ram")
    ∷ (codes "raml", codes "application/raml+yaml")
    ∷ (codes "rar", codes "application/vnd.rar")
    ∷ (codes "ras", codes "image/x-cmu-raster")
    ∷ (codes "raw", codes "image/x-panasonic-rw")
    ∷ (codes "rax", codes "audio/vnd.rn-realaudio")
    ∷ (codes "rb", codes "application/x-ruby")
    ∷ (codes "rc", codes "application/vnd.kde.guirc")
    ∷ (codes "rdc", codes "image/x-kde-raw")
    ∷ (codes "rdf", codes "application/rdf")
    ∷ (codes "rdfs", codes "application/rdf")
    ∷ (codes "rdp", codes "application/x-remmina")
    ∷ (codes "RDP", codes "application/x-remmina")
    ∷ (codes "rdpx", codes "application/x-remmina")
    ∷ (codes "reg", codes "text/x-ms-regedit")
    ∷ (codes "rej", codes "text/x-reject")
    ∷ (codes "remmina", codes "application/x-remmina")
    ∷ (codes "rf5", codes "application/x-tektronix-rf5")
    ∷ (codes "rgb", codes "image/x-rgb")
    ∷ (codes "rle", codes "image/rle")
    ∷ (codes "rm", codes "application/vnd.rn-realmedia")
    ∷ (codes "rmj", codes "application/vnd.rn-realmedia")
    ∷ (codes "rmm", codes "application/vnd.rn-realmedia")
    ∷ (codes "rms", codes "application/vnd.rn-realmedia")
    ∷ (codes "rmvb", codes "application/vnd.rn-realmedia")
    ∷ (codes "rmx", codes "application/vnd.rn-realmedia")
    ∷ (codes "rnc", codes "application/relax-ng-compact-syntax")
    ∷ (codes "rng", codes "application")
    ∷ (codes "rng", codes "application/relaxng")
    ∷ (codes "roff", codes "text/troff")
    ∷ (codes "rp", codes "image/vnd.rn-realpix")
    ∷ (codes "rpm", codes "application/x-rpm")
    ∷ (codes "rss", codes "application/rss")
    ∷ (codes "rs", codes "text/rust")
    ∷ (codes "rtf", codes "application/rtf")
    ∷ (codes "rt", codes "text/vnd.rn-realtext")
    ∷ (codes "rtx", codes "text/richtext")
    ∷ (codes "rv", codes "video/vnd.rn-realvideo")
    ∷ (codes "rvx", codes "video/vnd.rn-realvideo")
    ∷ (codes "rw2", codes "image/x-panasonic-rw2")
    ∷ (codes "s19", codes "text/x-srecord")
    ∷ (codes "s28", codes "text/x-srecord")
    ∷ (codes "s37", codes "text/x-srecord")
    ∷ (codes "s3m", codes "audio/x-s3m")
    ∷ (codes "sam", codes "application/x-amipro")
    ∷ (codes "sami", codes "application/x-sami")
    ∷ (codes "sap", codes "application/x-thomson-sap-image")
    ∷ (codes "sass", codes "text/x-sass")
    ∷ (codes "sav", codes "application/x-spss-sav")
    ∷ []
