-- ===== src/Ext2/Free/Bitmap.antt =====
-- What `read_free_list` of project 3a/ImgReader.c makes of a first group whose bitmap has as many free
-- blocks, or inodes, as its descriptor counts.
